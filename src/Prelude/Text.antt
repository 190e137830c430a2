-- ===== src/Prelude/Text.antt =====
-- fmt: `%q`, and `Sprintf` of a format that is given no operands.
use Prim.Native.Nat.{ℕ, zero, suc, ◌+◌, ◌/◌, ◌%◌, ◌≤◌}
use Prim.Native.Char.{Char, code}
use Prim.Native.String.{String, ◌++◌, [], ◌∷◌}
use mathlib.Core.Path.{◌≡◌, refl, sym, ap, ap₂, ◌∙◌}
use mathlib.Core.List.{List, tail, ◌++◌ as append, append_assoc}
use native.Mathlib.Omega.{arith}
use text.Mathlib.TextEquality.{Char-path}
use mathlib.Core.Bool.{Bool, false, ◌&&◌, ◌||◌}
use text.Mathlib.TextLemmas.{nil-append, cons-append}
use resolution.Prelude.Tests.{ltb, leb, ◌=?◌, if◌then◌else◌}

-- The sixteen digits of `%x`.
unfoldable pub hex_digit : ℕ → String
hex_digit n =
    if ltb n 8
    then if ltb n 4
      then (if n =? 0 then "0" else if n =? 1 then "1" else if n =? 2 then "2" else "3")
      else (if n =? 4 then "4" else if n =? 5 then "5" else if n =? 6 then "6" else "7")
    else if ltb n 12
    then (if n =? 8 then "8" else if n =? 9 then "9" else if n =? 10 then "a" else "b")
    else (if n =? 12 then "c" else if n =? 13 then "d" else if n =? 14 then "e" else "f")

-- One character of `strconv.Quote`. A character above ASCII is taken to be printable.
quote_char : Char → String
unfolding hex_digit
quote_char ch =
    let c = code ch in
    if c =? 34
    then "\\\""
    else if c =? 92
    then "\\\\"
    else if c =? 7
    then "\\a"
    else if c =? 8
    then "\\b"
    else if c =? 9
    then "\\t"
    else if c =? 10
    then "\\n"
    else if c =? 11
    then "\\v"
    else if c =? 12
    then "\\f"
    else if c =? 13
    then "\\r"
    else if ltb c 32 || (c =? 127)
    then "\\x" ++ (hex_digit (c / 16) ++ hex_digit (c % 16))
    else ch ∷ []

quote_chars : String → String
quote_chars [] = []
quote_chars (ch ∷ s) = quote_char ch ++ quote_chars s

-- `%q`
unfoldable pub quote : String → String
unfolding quote_chars quote_char
quote s = "\"" ++ (quote_chars s ++ "\"")

-- Where `doPrintf` stands: outside a directive, or in its flags, its width or its precision. A
-- star or an explicit argument index, which only programs with operands write, is read as a verb.
pub data Mode : Type 0 where
  plain flags width precision : Mode

-- The verb ends a directive: `%%` prints a percent sign, and any other finds no operand.
verb : Char → Mode × String
verb ch = (plain, if code ch =? 37 then "%" else "%!" ++ (ch ∷ "(MISSING)"))

is_digit : ℕ → Bool
is_digit c = leb 48 c && leb c 57

is_flag : ℕ → Bool
is_flag c = (c =? 35) || (c =? 48) || (c =? 43) || (c =? 45) || (c =? 32)

directive : Mode → Char → Mode × String
unfolding verb is_digit is_flag
directive plain ch = if code ch =? 37 then (flags, "") else (plain, ch ∷ [])
directive flags ch =
    if is_flag (code ch)
    then (flags, "")
    else if is_digit (code ch)
    then (width, "")
    else if code ch =? 46
    then (precision, "")
    else verb ch
directive width ch =
    if is_digit (code ch) then (width, "") else if code ch =? 46 then (precision, "") else verb ch
directive precision ch = if is_digit (code ch) then (precision, "") else verb ch

sprintf_end : Mode → String
sprintf_end plain = []
sprintf_end _ = "%!(NOVERB)"

sprintf_from : Mode → String → String
unfolding directive sprintf_end
sprintf_from m [] = sprintf_end m
sprintf_from m (ch ∷ s) = let (m', out) = directive m ch in out ++ sprintf_from m' s

-- `Sprintf(format)`
unfoldable pub sprintf : String → String
unfolding sprintf_from
sprintf format = sprintf_from plain format

-- A text without a percent sign.
abbrev pub NoPercent : String → Type 0
NoPercent [] = Unit
NoPercent (ch ∷ s) = ((code ch =? 37) ≡ false) × NoPercent s

cons-nil-append : (ch : Char) (s : String) → (ch ∷ []) ++ s ≡ ch ∷ s
cons-nil-append ch s = cons-append ch [] s ∙ ap (λ t. ch ∷ t) (nil-append s)

-- Such a format is printed as it stands.
pub sprintf_plain : (s : String) → NoPercent s → sprintf s ≡ s
unfolding sprintf
sprintf_plain [] h = refl
sprintf_plain (ch ∷ s) h = rw h.0 (rw cons-nil-append (ap (λ t. ch ∷ t) (sprintf_plain s h.1)))

-- The code points of a text, whose order is that of its bytes in UTF-8.
abbrev pub codes : String → List ℕ
codes [] = List.[]
codes (ch ∷ s) = List.◌∷◌ (code ch) (codes s)

-- One code point in UTF-8
abbrev utf8_code : ℕ → List ℕ
utf8_code c =
    if ltb c 128
    then List.◌∷◌ c List.[]
    else if ltb c 2048
    then List.◌∷◌ (192 + c / 64) (List.◌∷◌ (128 + c % 64) List.[])
    else if ltb c 65536
    then List.◌∷◌ (224 + c / 4096) (List.◌∷◌ (128 + c / 64 % 64) (List.◌∷◌ (128 + c % 64) List.[]))
    else List.◌∷◌ (240 + c / 262144) (
        List.◌∷◌ (128 + c / 4096 % 64)
          (List.◌∷◌ (128 + c / 64 % 64) (List.◌∷◌ (128 + c % 64) List.[])))

-- `[]byte(s)`
unfoldable pub utf8 : String → List ℕ
utf8 [] = List.[]
utf8 (ch ∷ s) = append (utf8_code (code ch)) (utf8 s)

pub utf8-append : (s t : String) → utf8 (s ++ t) ≡ append (utf8 s) (utf8 t)
unfolding utf8
utf8-append [] t = ap utf8 (nil-append t)
utf8-append (ch ∷ s) t =
    ap utf8 (cons-append ch s t)
    ∙ ap (λ r. append (utf8_code (code ch)) r) (utf8-append s t)
    ∙ sym (append_assoc (utf8_code (code ch)) (utf8 s) (utf8 t))

abbrev first : ℕ → List ℕ → ℕ
first d List.[] = d
first d (List.◌∷◌ x xs) = x

pub codes_injective : (s t : String) → codes s ≡ codes t → s ≡ t
codes_injective [] [] h = refl
codes_injective [] (d ∷ t) h = cc
codes_injective (c ∷ s) [] h = cc
codes_injective (c ∷ s) (d ∷ t) h =
    ap₂ (λ x r. x ∷ r) (Char-path c d (ap (first 0) h)) (codes_injective s t (ap tail h))

-- The decimal digits of a number, `%d`, on fuel: the number itself is enough.
decimal_from : ℕ → ℕ → String → String
unfolding hex_digit
decimal_from zero n acc = acc
decimal_from (suc f) n acc =
    let acc' = hex_digit (n % 10) ++ acc in
    let rest = decimal_from f (n / 10) acc' in if ltb n 10 then acc' else rest

unfoldable pub decimal : ℕ → String
unfolding decimal_from
decimal n = decimal_from (suc n) n ""

-- More fuel than the number changes nothing.
decimal_from-fuel :
    (f g n : ℕ) (acc : String)
    → n ≤ f
    → n ≤ g
    → decimal_from (suc f) n acc ≡ decimal_from (suc g) n acc
unfolding decimal_from
decimal_from-fuel zero zero n acc h k = refl
decimal_from-fuel zero (suc g) n acc h k = ground arith
decimal_from-fuel (suc f) zero n acc h k = ground arith
decimal_from-fuel (suc f) (suc g) n acc h k =
    ground (arith, decimal_from-fuel f g (n / 10) (hex_digit (n % 10) ++ acc))

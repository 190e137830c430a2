-- ===== src/Base64.antt =====
-- encoding/base64, as the program uses it: base64.StdEncoding.Strict(). The encoder writes the resolved
-- data into a request (pkg/resolver/framework/reconciler.go), and the decoder reads it back
-- (pkg/resource/crd_resource.go).
pub mod RoundTrip
use resolution.Prelude.{
  ℕ, zero, suc, ◌+◌, ◌-◌, ◌*◌, ◌/◌, ◌%◌, Bool, true, false, ◌&&◌, ◌||◌, Option, none, some, List,
  [], ◌∷◌, ◌++◌, leb, ltb, ◌=?◌, if◌then◌else◌, Result, ok, err,
}
use resolution.Api.{Bytes}

-- The alphabet: A to Z, a to z, 0 to 9, plus and slash.
chr : ℕ → ℕ
chr v =
    if ltb v 26
    then v + 65
    else if ltb v 52
    then v - 26 + 97
    else if ltb v 62
    then v - 52 + 48
    else if v =? 62
    then 43
    else 47

abbrev padding : ℕ
padding = 61

-- EncodeToString
unfoldable pub encode : Bytes → Bytes
unfolding chr
encode [] = []
encode (x ∷ []) = chr (x / 4) ∷ chr (x % 4 * 16) ∷ padding ∷ padding ∷ []
encode (x ∷ y ∷ []) = chr (x / 4) ∷ chr (x % 4 * 16 + y / 16) ∷ chr (y % 16 * 4) ∷ padding ∷ []
encode (x ∷ y ∷ z ∷ rest) =
    chr (x / 4) ∷ chr (x % 4 * 16 + y / 16) ∷ chr (y % 16 * 4 + z / 64) ∷ chr (z % 64) ∷ encode rest

pub data Letter : Type 0 where
  digit : ℕ → Letter
  pad newline other : Letter

read : ℕ → Letter
read c =
    if leb 65 c && leb c 90
    then digit (c - 65)
    else if leb 97 c && leb c 122
    then digit (c - 97 + 26)
    else if leb 48 c && leb c 57
    then digit (c - 48 + 52)
    else if c =? 43
    then digit 62
    else if c =? 47
    then digit 63
    else if c =? padding
    then pad
    else if (c =? 10) || (c =? 13)
    then newline
    else other

-- Where the decoder stands in a quantum of four letters: the digits that it has, a quantum that wants
-- its second padding letter, and the end of the data. There, `late k` remembers that padded bits were
-- not zero, which strict decoding reports `k` places back.
pub data Place : Type 0 where
  d0 : Place
  d1 : ℕ → Place
  d2 d2_pad : ℕ → ℕ → Place
  d3 : ℕ → ℕ → ℕ → Place
  done : Place
  late : ℕ → Place

pub data Step : Type 0 where
  next : Place → Bytes → Step
  corrupt : ℕ → Step

-- The letter at position `n`, unless it is a line break.
letter : ℕ → Place → Letter → Step
letter n p newline = next p []
letter n d0 (digit a) = next (d1 a) []
letter n (d1 a) (digit b) = next (d2 a b) []
letter n (d2 a b) (digit c) = next (d3 a b c) []
letter n (d2 a b) pad = next (d2_pad a b) []
letter n (d3 a b c) (digit d) =
    next d0 ((a * 4 + b / 16) ∷ (b % 16 * 16 + c / 4) ∷ (c % 4 * 64 + d) ∷ [])
letter n (d3 a b c) pad =
    next (if c % 4 =? 0 then done else late 1) ((a * 4 + b / 16) ∷ (b % 16 * 16 + c / 4) ∷ [])
letter n (d2_pad a b) pad = next (if b % 16 =? 0 then done else late 2) ((a * 4 + b / 16) ∷ [])
letter n (d2_pad a b) _ = corrupt (n - 1)
letter n (late k) _ = corrupt (n - k)
letter n _ _ = corrupt n

-- The input ends at position `n`.
finish : ℕ → Place → Result ℕ Bytes
finish n d0 = ok []
finish n (d1 a) = err (n - 1)
finish n (d2 a b) = err (n - 2)
finish n (d2_pad a b) = err n
finish n (d3 a b c) = err (n - 3)
finish n done = ok []
finish n (late k) = err (n - k)

abbrev prepend : Bytes → Result ℕ Bytes → Result ℕ Bytes
prepend out (ok bs) = ok (out ++ bs)
prepend out (err n) = err n

decode_from : ℕ → Place → Bytes → Result ℕ Bytes
decode_from n p [] = finish n p
decode_from n p (c ∷ cs) = elim (letter n p (read c)) [
  | corrupt k ↦ err k
  | next p' out ↦ prepend out (decode_from (suc n) p' cs)
]

-- DecodeString: the bytes, or the position of CorruptInputError.
unfoldable pub decode : Bytes → Result ℕ Bytes
unfolding decode_from read letter finish
decode s = decode_from 0 d0 s

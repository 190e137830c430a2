-- ===== src/Base64/RoundTrip.antt =====
-- Decoding what was encoded gives back the bytes.
use resolution.Prelude.{ℕ, suc, ◌+◌, ◌*◌, ◌/◌, ◌%◌, ◌<◌, ◌≡◌, refl, [], ◌∷◌, arith, ok}
use resolution.Api.{Bytes}
use resolution.Base64.{
  prepend, finish, chr, padding, encode, digit, read, d0, d1, d2, d3, letter, decode_from, decode,
}

-- Every item of a list is a byte.
abbrev pub AllBytes : Bytes → Type 0
AllBytes [] = Unit
AllBytes (b ∷ bs) = (b < 256) × AllBytes bs

read-chr : (v : ℕ) → v < 64 → read (chr v) ≡ digit v
unfolding read chr
read-chr v h = ground arith

module _ (n v : ℕ) (h : v < 64) where
  first : (cs : Bytes) → decode_from n d0 (chr v ∷ cs) ≡ prepend [] (decode_from (suc n) (d1 v) cs)
  unfolding decode_from letter
  first cs = rw (read-chr v h, decode_from)

  second :
      (a : ℕ) (cs : Bytes)
      → decode_from n (d1 a) (chr v ∷ cs) ≡ prepend [] (decode_from (suc n) (d2 a v) cs)
  unfolding decode_from letter
  second a cs = rw (read-chr v h, decode_from)

  third :
      (a b : ℕ) (cs : Bytes)
      → decode_from n (d2 a b) (chr v ∷ cs) ≡ prepend [] (decode_from (suc n) (d3 a b v) cs)
  unfolding decode_from letter
  third a b cs = rw (read-chr v h, decode_from)

  fourth :
      (a b c : ℕ) (cs : Bytes)
      → decode_from n (d3 a b c) (chr v ∷ cs)
        ≡ prepend
            ((a * 4 + b / 16) ∷ (b % 16 * 16 + c / 4) ∷ (c % 4 * 64 + v) ∷ [])
            (decode_from (suc n) d0 cs)
  unfolding decode_from letter
  fourth a b c cs = rw (read-chr v h, decode_from)

-- The three ways in which the letters of a text end.
two_pads :
    (n a b : ℕ)
    → b % 16 ≡ 0
    → decode_from n (d2 a b) (padding ∷ padding ∷ []) ≡ ok ((a * 4 + b / 16) ∷ [])
unfolding decode_from letter read finish
two_pads n a b h = ground arith

one_pad :
    (n a b c : ℕ)
    → c % 4 ≡ 0
    → decode_from n (d3 a b c) (padding ∷ []) ≡ ok ((a * 4 + b / 16) ∷ (b % 16 * 16 + c / 4) ∷ [])
unfolding decode_from letter read finish
one_pad n a b c h = ground arith

encode_three :
    (x y z : ℕ) (rest : Bytes)
    → encode (x ∷ y ∷ z ∷ rest)
      ≡ chr (x / 4)
        ∷ chr (x % 4 * 16 + y / 16)
        ∷ chr (y % 16 * 4 + z / 64)
        ∷ chr (z % 64)
        ∷ encode rest
unfolding encode
encode_three x y z rest = refl

encode_two :
    (x y : ℕ)
    → encode (x ∷ y ∷ [])
      ≡ chr (x / 4) ∷ chr (x % 4 * 16 + y / 16) ∷ chr (y % 16 * 4) ∷ padding ∷ []
unfolding encode
encode_two x y = refl

encode_one : (x : ℕ) → encode (x ∷ []) ≡ chr (x / 4) ∷ chr (x % 4 * 16) ∷ padding ∷ padding ∷ []
unfolding encode
encode_one x = refl

decode_from-encode : (n : ℕ) (bs : Bytes) → AllBytes bs → decode_from n d0 (encode bs) ≡ ok bs
decode_from-encode n [] h = unfold decode_from encode finish in refl
decode_from-encode n (x ∷ []) h = rw encode_one (
    rw (first n (x / 4) (omega arith)) (
      rw (second (suc n) (x % 4 * 16) (omega arith))
        (rw (two_pads (suc (suc n)) (x / 4) (x % 4 * 16) (omega arith)) (ground arith))))
decode_from-encode n (x ∷ y ∷ []) h = rw encode_two (
    rw (first n (x / 4) (omega arith)) (
      rw (second (suc n) (x % 4 * 16 + y / 16) (omega arith)) (
        rw (third (suc (suc n)) (y % 16 * 4) (omega arith)) (
          rw (one_pad (suc (suc (suc n))) (x / 4) (x % 4 * 16 + y / 16) (y % 16 * 4) (omega arith))
            (ground arith)))))
decode_from-encode n (x ∷ y ∷ z ∷ rest) h = rw encode_three (
    rw (first n (x / 4) (omega arith)) (
      rw (second (suc n) (x % 4 * 16 + y / 16) (omega arith)) (
        rw (third (suc (suc n)) (y % 16 * 4 + z / 64) (omega arith)) (
          rw (fourth (suc (suc (suc n))) (z % 64) (omega arith))
            (rw (decode_from-encode (suc (suc (suc (suc n)))) rest h.1.1.1) (ground arith))))))

-- Decoding an encoded text gives back its bytes.
pub decode-encode : (bs : Bytes) → AllBytes bs → decode (encode bs) ≡ ok bs
unfolding decode
decode-encode bs h = decode_from-encode 0 bs h

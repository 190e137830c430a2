-- ===== src/Resource/Name.antt =====
-- pkg/resource/name.go: a reproducible name for a request, with the FNV-1a hash of 128 bits
-- (hash/fnv).
pub mod Sorting
pub mod Determined
pub mod Abstract
mod Tests
use Prim.Native.Nat.{bit_xor}
use Prim.Native.String.{◌++◌ as append}
use resolution.Prelude.{
  ℕ, zero, suc, ◌+◌, ◌*◌, ◌/◌, ◌%◌, ◌^◌, String, Bool, true, false, List, [], ◌∷◌, ◌++◌, map, GoMap,
  entries, index, ltb, ◌=?◌, if◌then◌else◌, codes, utf8, hex_digit,
}
use resolution.Api.{Bytes}

abbrev offset_basis : ℕ
offset_basis = 0x6c62272e07bb014262b821756295c58d

abbrev prime : ℕ
prime = 0x0000000001000000000000000000013B

-- hasher.Write, of one byte and of many; it never fails.
write_byte : ℕ → ℕ → ℕ
write_byte h b = bit_xor h b * prime % 2 ^ 128

write : ℕ → Bytes → ℕ
unfolding write_byte
write h [] = h
write h (b ∷ bs) = write (write_byte h b) bs

-- The lowest `n` hexadecimal digits, in front of a text; hasher.Sum has 32 of them.
hex : ℕ → ℕ → String → String
unfolding hex_digit
hex zero h acc = acc
hex (suc n) h acc = hex n (h / 16) (append (hex_digit (h % 16)) acc)

-- The order of sort.Strings.
at_most : List ℕ → List ℕ → Bool
at_most [] ys = true
at_most (x ∷ xs) [] = false
at_most (x ∷ xs) (y ∷ ys) = let rest = at_most xs ys in if x =? y then rest else ltb x y

unfoldable pub insert : String → List String → List String
unfolding at_most
insert s [] = s ∷ []
insert s (t ∷ ts) =
    let rest = insert s ts in if at_most (codes s) (codes t) then s ∷ t ∷ ts else t ∷ rest

-- sort.Strings(paramKeys)
unfoldable pub sort_strings : List String → List String
unfolding insert
sort_strings [] = []
sort_strings (s ∷ ss) = insert s (sort_strings ss)

-- for key := range params: the keys, in the order in which the map is visited
abbrev pub keys : List (String × String) → List String
keys [] = []
keys ((k, v) ∷ m) = k ∷ keys m

-- The loop that writes each key and its value.
write_params : ℕ → List String → GoMap → ℕ
unfolding write
write_params h [] params = h
write_params h (key ∷ ks) params =
    write_params (write (write h (utf8 key)) (utf8 (index key params))) ks params

pub generate_deterministic_name : String → String → GoMap → String
generate_deterministic_name prefix base params =
    let h =
      write_params (write offset_basis (utf8 base)) (sort_strings (keys (entries params))) params in
    append prefix (append "-" (hex 32 h ""))

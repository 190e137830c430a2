-- ===== src/Resource/Name/Determined.antt =====
-- What the generated name depends on.
use Prim.Native.String.{◌++◌ as append}
use mathlib.Core.List.{Permᴰ, append_assoc}
use resolution.Prelude.{
  ℕ, String, ◌≡◌, refl, sym, ap, ◌∙◌, some, List, [], ◌∷◌, ◌++◌, GoMap, entries, index, utf8,
  utf8-append, eq_refl,
}
use resolution.Api.{Bytes}
use resolution.Resource.Name.{
  offset_basis, write_byte, write, hex, keys, sort_strings, write_params,
  generate_deterministic_name,
}
use resolution.Resource.Name.Sorting.{sort_strings-perm}

-- One map, visited in two orders.
pub record SameMap (m n : List (String × String)) : Type 0 where
  pub same_keys : Permᴰ (keys m) (keys n)
  pub same_values : (k : String) → index k (some m) ≡ index k (some n)

write_params-values :
    (h : ℕ) (ks : List String) (p q : GoMap)
    → ((k : String) → index k p ≡ index k q)
    → write_params h ks p ≡ write_params h ks q
unfolding write_params
write_params-values h [] p q e = refl
write_params-values h (k ∷ ks) p q e =
    ap (λ v. write_params (write (write h (utf8 k)) (utf8 v)) ks p) (e k)
    ∙ write_params-values (write (write h (utf8 k)) (utf8 (index k q))) ks p q e

abbrev rendered : String → ℕ → String
rendered prefix h = append prefix (append "-" (hex 32 h ""))

-- The name does not depend on the order in which the parameters are visited.
pub name-SameMap :
    (prefix base : String) (m n : List (String × String))
    → SameMap m n
    → generate_deterministic_name prefix base (some m)
      ≡ generate_deterministic_name prefix base (some n)
unfolding generate_deterministic_name
name-SameMap prefix base m n same =
    ap (λ h. rendered prefix h)
      (ap (λ ks. write_params (write offset_basis (utf8 base)) ks (some m))
          (sort_strings-perm same.same_keys)
        ∙ write_params-values (write offset_basis (utf8 base)) (sort_strings (keys n)) (some m)
            (some n) same.same_values)

-- What is hashed: the base, and then each key and its value, with nothing in between.
abbrev stream : List String → GoMap → Bytes
stream [] params = []
stream (k ∷ ks) params = utf8 k ++ (utf8 (index k params) ++ stream ks params)

abbrev hashed : String → GoMap → Bytes
hashed base params = utf8 base ++ stream (sort_strings (keys (entries params))) params

write-append : (h : ℕ) (xs ys : Bytes) → write h (xs ++ ys) ≡ write (write h xs) ys
unfolding write
write-append h [] ys = refl
write-append h (x ∷ xs) ys = write-append (write_byte h x) xs ys

write_params-stream :
    (h : ℕ) (ks : List String) (params : GoMap)
    → write_params h ks params ≡ write h (stream ks params)
unfolding write_params
write_params-stream h [] params = unfold write in refl
write_params-stream h (k ∷ ks) params =
    write_params-stream (write (write h (utf8 k)) (utf8 (index k params))) ks params
    ∙ sym (write-append (write h (utf8 k)) (utf8 (index k params)) (stream ks params))
    ∙ sym (write-append h (utf8 k) (utf8 (index k params) ++ stream ks params))

generated :
    (prefix base : String) (p : GoMap)
    → generate_deterministic_name prefix base p
      ≡ rendered prefix (write offset_basis (hashed base p))
unfolding generate_deterministic_name
generated prefix base p =
    ap (λ h. rendered prefix h)
      (write_params-stream (write offset_basis (utf8 base)) (sort_strings (keys (entries p))) p
        ∙ sym (write-append offset_basis (utf8 base) (stream (sort_strings (keys (entries p))) p)))

single :
    (base k v : String) → hashed base (some ((k, v) ∷ [])) ≡ utf8 base ++ (utf8 k ++ (utf8 v ++ []))
unfolding sort_strings
single base k v = ap (λ x. utf8 base ++ (utf8 k ++ (utf8 x ++ []))) (rw eq_refl)

regrouped : (x y z : Bytes) → (x ++ y) ++ (z ++ []) ≡ x ++ ((y ++ z) ++ [])
regrouped x y z = simp append_assoc

-- Requests whose hashed bytes are the same have the same name, whatever their parameters.
name-hashed :
    (prefix base base' : String) (p q : GoMap)
    → hashed base p ≡ hashed base' q
    → generate_deterministic_name prefix base p ≡ generate_deterministic_name prefix base' q
name-hashed prefix base base' p q e =
    generated prefix base p
    ∙ ap (λ b. rendered prefix (write offset_basis b)) e
    ∙ sym (generated prefix base' q)

-- So a parameter's key and value may be split anywhere: such requests get one name.
pub name-split :
    (prefix base k v w : String)
    → generate_deterministic_name prefix base (some ((append k v, w) ∷ []))
      ≡ generate_deterministic_name prefix base (some ((k, append v w) ∷ []))
name-split prefix base k v w = name-hashed prefix base base _ _ (
    single base (append k v) w
    ∙ ap (λ x. utf8 base ++ (x ++ (utf8 w ++ []))) (utf8-append k v)
    ∙ ap (λ x. utf8 base ++ x) (regrouped (utf8 k) (utf8 v) (utf8 w))
    ∙ ap (λ x. utf8 base ++ (utf8 k ++ (x ++ []))) (sym (utf8-append v w))
    ∙ sym (single base k (append v w)))

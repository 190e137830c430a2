-- ===== src/Resource/Name/Sorting.antt =====
-- Sorting forgets the order in which a map was visited.
use mathlib.Core.Path.{ap₂}
use mathlib.Core.List.{Permᴰ}
use resolution.Prelude.{
  Bool, ℕ, String, ◌≡◌, refl, ◌∙◌, true, false, List, [], ◌∷◌, arith, codes, codes_injective,
}
use resolution.Resource.Name.{at_most, insert, sort_strings}

at_most_total : (xs ys : List ℕ) → at_most xs ys ≡ false → at_most ys xs ≡ true
unfolding at_most
at_most_total [] ys h = cc
at_most_total (x ∷ xs) [] h = refl
at_most_total (x ∷ xs) (y ∷ ys) h = ground (arith, at_most_total xs ys)

at_most_antisym : (xs ys : List ℕ) → at_most xs ys ≡ true → at_most ys xs ≡ true → xs ≡ ys
unfolding at_most
at_most_antisym [] [] h g = refl
at_most_antisym [] (y ∷ ys) h g = cc
at_most_antisym (x ∷ xs) [] h g = cc
at_most_antisym (x ∷ xs) (y ∷ ys) h g = ground (arith, at_most_antisym xs ys)

at_most_trans :
    (xs ys zs : List ℕ) → at_most xs ys ≡ true → at_most ys zs ≡ true → at_most xs zs ≡ true
unfolding at_most
at_most_trans [] ys zs h g = refl
at_most_trans (x ∷ xs) [] zs h g = cc
at_most_trans (x ∷ xs) (y ∷ ys) [] h g = cc
at_most_trans (x ∷ xs) (y ∷ ys) (z ∷ zs) h g = ground (arith, at_most_trans xs ys zs)

-- The same order on texts, by their code points.
abbrev below : String → String → Bool
below s t = at_most (codes s) (codes t)

below_total : (s t : String) → below s t ≡ false → below t s ≡ true
below_total s t = at_most_total (codes s) (codes t)

below_antisym : (s t : String) → below s t ≡ true → below t s ≡ true → s ≡ t
below_antisym s t h g = codes_injective s t (at_most_antisym (codes s) (codes t) h g)

below_trans : (s t u : String) → below s t ≡ true → below t u ≡ true → below s u ≡ true
below_trans s t u = at_most_trans (codes s) (codes t) (codes u)

insert_comm : (s t : String) (l : List String) → insert s (insert t l) ≡ insert t (insert s l)
unfolding insert
insert_comm s t [] = ground (arith, below_total s t, below_antisym s t)
insert_comm s t (x ∷ l) = ground (
  arith,
  insert_comm s t l,
  below_total s t,
  below_antisym s t,
  below_total s x,
  below_total t x,
  below_trans s t x,
  below_trans t s x,
)

-- Two lists of the same texts are sorted into one list.
pub sort_strings-perm : {xs ys : List String} → Permᴰ xs ys → sort_strings xs ≡ sort_strings ys
unfolding sort_strings
sort_strings-perm Permᴰ.nil = refl
sort_strings-perm (Permᴰ.cons {l₂ = ys} e p) = ap₂ insert e (sort_strings-perm p)
sort_strings-perm (Permᴰ.swap {a = a} {b = b} {l = l} e f) =
    insert_comm a b (sort_strings l) ∙ ap₂ (λ x y. insert x (insert y (sort_strings l))) f e
sort_strings-perm (Permᴰ.trans p q) = sort_strings-perm p ∙ sort_strings-perm q

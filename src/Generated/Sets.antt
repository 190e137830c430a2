-- ===== src/Generated/Sets.antt =====
-- k8s.io/apimachinery/pkg/util/sets.String, as a list of its items in no particular order.
use resolution.Prelude.{
  String, ◌≡◌, refl, sym, ap, ◌∙◌, inl, inr, Bool-cases, Bool, false, ◌||◌, ◌&&◌, not, List, [],
  ◌∷◌, ◌++◌, ◌==◌, eq_iff, arith, if◌then◌else◌,
}
use resolution.Resource.Name.{insert as insert_sorted, sort_strings}

abbrev pub has : List String → String → Bool
has [] item = false
has (x ∷ s) item = let rest = has s item in (x == item) || rest

abbrev pub insert : List String → String → List String
insert s item = if has s item then s else item ∷ s

abbrev pub delete : List String → String → List String
delete [] item = []
delete (x ∷ s) item = let rest = delete s item in if x == item then rest else x ∷ rest

-- NewString
abbrev pub new_string : List String → List String
new_string [] = []
new_string (x ∷ xs) = insert (new_string xs) x

-- List: the items, sorted
abbrev pub list : List String → List String
list s = sort_strings s

pub has-insert :
    (s : List String) (item x : String) → has (insert s item) x ≡ ((item == x) || has s x)
has-insert s item x = elim (Bool-cases (has s item)) [
  | inr absent ↦ rw absent refl
  | inl there ↦ elim (Bool-cases (item == x)) [
    | inr differ ↦ rw there (rw differ refl)
    | inl same ↦ let e = (eq_iff item x).0 same in rw there (rw same (ap (has s) (sym e) ∙ there))
  ]
]

pub has-delete :
    (s : List String) (item x : String) → has (delete s item) x ≡ (not (item == x) && has s x)
has-delete [] item x = ground arith
has-delete (y ∷ s) item x =
    ground (arith, has-delete s item x, eq_iff y item, eq_iff y x, eq_iff item x)

pub has-new_string : (xs : List String) (x : String) → has (new_string xs) x ≡ has xs x
has-new_string [] x = refl
has-new_string (y ∷ xs) x = ground (arith, has-insert (new_string xs) y x, has-new_string xs x)

has-insert_sorted :
    (s : List String) (item x : String) → has (insert_sorted item s) x ≡ ((item == x) || has s x)
unfolding insert_sorted
has-insert_sorted [] item x = refl
has-insert_sorted (y ∷ s) item x = ground (arith, has-insert_sorted s item x)

pub has-list : (s : List String) (x : String) → has (list s) x ≡ has s x
unfolding sort_strings
has-list [] x = refl
has-list (y ∷ s) x = ground (arith, has-insert_sorted (sort_strings s) y x, has-list s x)

pub has-append : (s t : List String) (x : String) → has (s ++ t) x ≡ (has s x || has t x)
has-append [] t x = refl
has-append (y ∷ s) t x = ground (arith, has-append s t x)

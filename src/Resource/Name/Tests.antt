-- ===== src/Resource/Name/Tests.antt =====
-- Names of concrete requests. The first is the published FNV-1a hash of "a".
use mathlib.Core.List.{Permᴰ}
use mathlib.Core.Quot
use resolution.Prelude.{
  Bool, true, false, ap, sym, ◌∙◌, String, ◌≡◌, refl, Option, none, some, List, [], ◌∷◌, utf8,
  arith, eq_iff, ◌==◌, if◌then◌else◌, or_empty,
}
use resolution.Resource.Name.{hex, write_params, sort_strings, generate_deterministic_name}
use resolution.Resource.Name.Determined.{SameMap, name-split}
use resolution.Resource.Name.Abstract.{Parameters, name_of, name_of_unique}

published : generate_deterministic_name "p" "a" none ≡ "p-d228cb696f1a8caf78912b704e4a8964"
unfolding generate_deterministic_name hex write_params sort_strings utf8
published = refl

abbrev one_order : List (String × String)
one_order = ("url", "u") ∷ ("path", "p") ∷ []

abbrev other_order : List (String × String)
other_order = ("path", "p") ∷ ("url", "u") ∷ []

one_key : (k : String) → ("url" == k) ≡ true → ("path" == k) ≡ true → ⊥
one_key k h g =
    let e : true ≡ false =
      ap (λ s. s == "url") ((eq_iff "url" k).0 h ∙ sym ((eq_iff "path" k).0 g)) in
    cc

abbrev found : String → Option String
found s = some s

either_order :
    (p q : Bool)
    → (p ≡ true → q ≡ true → ⊥)
    → or_empty (if p then found "u" else if q then found "p" else none)
      ≡ or_empty (if q then found "p" else if p then found "u" else none)
either_order p q h = ground arith

orders-SameMap : SameMap one_order other_order
orders-SameMap = record {
  same_keys = Permᴰ.swap refl refl;
  same_values = λ k. either_order ("url" == k) ("path" == k) (one_key k);
}

name_of_unique_example :
    ((m : List (String × String))
      → name_of "git" "team" (Quot.mk m) ≡ generate_deterministic_name "git" "team" (some m))
    × ((g : Parameters → String)
        → ((m : List (String × String))
            → g (Quot.mk m) ≡ generate_deterministic_name "git" "team" (some m))
        → g ≡ name_of "git" "team")
name_of_unique_example = name_of_unique "git" "team"

-- The two orders are one map.
one_map : ◌≡◌ {A = Parameters} (Quot.mk one_order) (Quot.mk other_order)
one_map = Quot.sound orders-SameMap

name-split_example :
    generate_deterministic_name "git" "team" (some (("path", "x") ∷ []))
    ≡ generate_deterministic_name "git" "team" (some (("pa", "thx") ∷ []))
name-split_example = name-split "git" "team" "pa" "th" "x"

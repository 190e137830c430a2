-- ===== src/Resource/Name/Abstract.antt =====
-- Names of parameters as Go has them, with no order. A map is the quotient of the lists of its entries by
-- the order in which `range` visits them.
use mathlib.Core.HLevel.{hedberg}
use mathlib.Core.Path.{fun_ext}
use mathlib.Core.Quot
use mathlib.Core.Quot.{Quot}
use resolution.Prelude.{String, ◌≡◌, refl, some, List, ◌==◌, eq_iff, arith, Bool-cases, inl, inr}
use resolution.Resource.Name.{generate_deterministic_name}
use resolution.Resource.Name.Determined.{SameMap, name-SameMap}

decide_eq : Discrete String
decide_eq s t = elim (Bool-cases (s == t)) [
  | inl h ↦ yes ((eq_iff s t).0 h)
  | inr h ↦ no (λ e. ground (arith, eq_iff s t))
]

String_set : IsSet String
String_set = hedberg decide_eq

-- A map, in no order
abbrev pub Parameters : Type 0
Parameters = Quot SameMap

-- The name of a map
pub name_of : String → String → Parameters → String
name_of prefix base =
    Quot.lift String_set (λ m. generate_deterministic_name prefix base (some m))
      (name-SameMap prefix base)

-- The code's name is a name of the map, in whichever order it visits the entries: there is exactly one
-- function of maps without an order that agrees with it in every order.
pub name_of_unique :
    (prefix base : String)
    → ((m : List (String × String))
        → name_of prefix base (Quot.mk m) ≡ generate_deterministic_name prefix base (some m))
      × ((g : Parameters → String)
          → ((m : List (String × String))
              → g (Quot.mk m) ≡ generate_deterministic_name prefix base (some m))
          → g ≡ name_of prefix base)
unfolding name_of
name_of_unique prefix base =
    (λ m. refl, λ g agrees. fun_ext (Quot.ind (λ q. String_set _ _) agrees))

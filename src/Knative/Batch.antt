-- ===== src/Knative/Batch.antt =====
-- A concrete manager, which shows that the laws of the interface can be met.
use resolution.Prelude.{
  String, ◌≡◌, refl, inl, inr, Bool, true, false, Option, none, some, Option-cases, List, [], ◌∷◌,
  ◌==◌, sprintf, arith, if◌then◌else◌,
}
use resolution.Api.{Condition, condition_true, condition_false, condition_unknown}
use resolution.Knative.Manager.{Manager, succeeded, status_is_unknown, status_is_true, or_unknown}

abbrev find_succeeded : List Condition → Option Condition
find_succeeded [] = none
find_succeeded (c ∷ cs) = if c.condition_type == "Succeeded" then some c else find_succeeded cs

abbrev pub others : List Condition → List Condition
others [] = []
others (c ∷ cs) = let rest = others cs in if c.condition_type == "Succeeded" then rest else c ∷ rest

abbrev unknown_of : Option Condition → Bool
unknown_of none = true
unknown_of (some c) = status_is_unknown c.status

abbrev true_of : Option Condition → Bool
true_of none = false
true_of (some c) = status_is_true c.status

abbrev message_of : Option Condition → String
message_of none = ""
message_of (some c) = c.message

abbrev pub initialized : List Condition → List Condition
initialized cs = or_unknown (find_succeeded cs) ∷ others cs

find_type :
    (cs : List Condition) (c : Condition)
    → find_succeeded cs ≡ some c
    → (c.condition_type == "Succeeded") ≡ true
find_type [] c h = cc
find_type (d ∷ cs) c h = ground (arith, find_type cs c)

pub find-initialized :
    (cs : List Condition) → find_succeeded (initialized cs) ≡ some (or_unknown (find_succeeded cs))
find-initialized cs = elim (Option-cases (find_succeeded cs)) [
  | inl e ↦ rw e
  | inr (c, e) ↦ rw e (rw (find_type cs c e))
]

abbrev pub batch : Manager
batch = record {
  get_condition = find_succeeded;
  is_unknown = unknown_of;
  is_true = true_of;
  get_message = message_of;
  initialize_conditions = initialized;
  mark_true = λ cs. succeeded condition_true "" "" ∷ others cs;
  mark_false = λ r f cs. succeeded condition_false r (sprintf f) ∷ others cs;
  mark_unknown = λ r f cs. succeeded condition_unknown r (sprintf f) ∷ others cs;
  get_condition-nil = refl;
  is_unknown-none = refl;
  is_unknown-some = λ c. refl;
  is_true-none = refl;
  is_true-some = λ c. refl;
  get_message-none = refl;
  get_message-some = λ c. refl;
  get-initialize = find-initialized;
  get-mark_true = λ cs. refl;
  get-mark_false = λ r f cs. refl;
  get-mark_unknown = λ r f cs. refl;
}

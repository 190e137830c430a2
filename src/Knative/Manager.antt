-- ===== src/Knative/Manager.antt =====
-- apis.NewBatchConditionSet() with no dependents: its happy condition is Succeeded, and it is the only
-- condition that the program reads or writes.
use resolution.Prelude.{String, ◌≡◌, Bool, true, false, Option, none, some, List, [], sprintf}
use resolution.Api.{Condition, ConditionStatus, condition_true, condition_false, condition_unknown}

abbrev pub succeeded : ConditionStatus → String → String → Condition
succeeded status reason message = record {
  condition_type = "Succeeded";
  status = status;
  reason = reason;
  message = message;
}

abbrev pub status_is_unknown : ConditionStatus → Bool
status_is_unknown condition_unknown = true
status_is_unknown _ = false

abbrev pub status_is_true : ConditionStatus → Bool
status_is_true condition_true = true
status_is_true _ = false

-- What InitializeConditions leaves: a missing condition becomes Unknown.
abbrev pub or_unknown : Option Condition → Condition
or_unknown none = succeeded condition_unknown "" ""
or_unknown (some c) = c

pub record Manager : Type 0 where
  -- GetCondition(apis.ConditionSucceeded), of the manager and of duckv1.Status
  pub get_condition : List Condition → Option Condition
  pub is_unknown : Option Condition → Bool
  pub is_true : Option Condition → Bool
  pub get_message : Option Condition → String
  pub initialize_conditions : List Condition → List Condition
  -- MarkTrue(apis.ConditionSucceeded), and the same for the two below with a reason and a format
  pub mark_true : List Condition → List Condition
  pub mark_false : String → String → List Condition → List Condition
  pub mark_unknown : String → String → List Condition → List Condition
  pub get_condition-nil : get_condition [] ≡ none
  -- The methods of Condition answer for a nil receiver too.
  pub is_unknown-none : is_unknown none ≡ true
  pub is_unknown-some : (c : Condition) → is_unknown (some c) ≡ status_is_unknown c.status
  pub is_true-none : is_true none ≡ false
  pub is_true-some : (c : Condition) → is_true (some c) ≡ status_is_true c.status
  pub get_message-none : get_message none ≡ ""
  pub get_message-some : (c : Condition) → get_message (some c) ≡ c.message
  -- A condition that was set is read back. The message is a format, printed with no operands.
  pub get-initialize :
      (cs : List Condition)
      → get_condition (initialize_conditions cs) ≡ some (or_unknown (get_condition cs))
  pub get-mark_true :
      (cs : List Condition) → get_condition (mark_true cs) ≡ some (succeeded condition_true "" "")
  pub get-mark_false :
      (reason format : String) (cs : List Condition)
      → get_condition (mark_false reason format cs)
        ≡ some (succeeded condition_false reason (sprintf format))
  pub get-mark_unknown :
      (reason format : String) (cs : List Condition)
      → get_condition (mark_unknown reason format cs)
        ≡ some (succeeded condition_unknown reason (sprintf format))

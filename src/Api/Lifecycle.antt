-- ===== src/Api/Lifecycle.antt =====
-- pkg/apis/resolution/v1alpha1/resolution_request_lifecycle.go and resolution_request_defaults.go.
pub mod Marks
use resolution.Prelude.{String, ◌≡◌, Bool, not, Option, ◌==◌, arith, if◌then◌else◌}
use resolution.Common.{reason_resolution_in_progress}
use resolution.Api.{Condition, DuckStatus, ResolutionRequestStatus, ResolutionRequest}
use resolution.Knative.Manager.{Manager}

abbrev set_conditions :
    ResolutionRequestStatus → (DuckStatus → DuckStatus) → ResolutionRequestStatus
set_conditions s f = record s { duck = f s.duck }

module _ (k : Manager) where
  -- rr.Status.GetCondition(apis.ConditionSucceeded)
  abbrev pub get_condition : ResolutionRequestStatus → Option Condition
  get_condition s = k.get_condition s.duck.conditions

  unfoldable pub has_started : ResolutionRequest → Bool
  has_started rr = k.is_unknown (get_condition rr.status)

  unfoldable pub is_done : ResolutionRequest → Bool
  is_done rr = not (k.is_unknown (get_condition rr.status))

  unfoldable pub initialize_conditions : ResolutionRequestStatus → ResolutionRequestStatus
  initialize_conditions s =
      set_conditions s λ d. record d { conditions = k.initialize_conditions d.conditions }

  unfoldable pub mark_failed : String → String → ResolutionRequestStatus → ResolutionRequestStatus
  mark_failed reason message s =
      set_conditions s λ d. record d { conditions = k.mark_false reason message d.conditions }

  unfoldable pub mark_succeeded : ResolutionRequestStatus → ResolutionRequestStatus
  mark_succeeded s = set_conditions s λ d. record d { conditions = k.mark_true d.conditions }

  unfoldable pub mark_in_progress : String → ResolutionRequestStatus → ResolutionRequestStatus
  mark_in_progress message s = set_conditions s λ d. record d {
    conditions = k.mark_unknown reason_resolution_in_progress message d.conditions;
  }

-- SetDefaults
unfoldable pub set_defaults : ResolutionRequest → ResolutionRequest
set_defaults rr =
    let kind = if rr.type_meta.kind == "" then "ResolutionRequest" else rr.type_meta.kind in
    let version =
      if rr.type_meta.api_version == ""
      then "resolution.tekton.dev/v1alpha1"
      else rr.type_meta.api_version in
    record rr { type_meta = record { kind = kind; api_version = version } }

-- Defaulting twice is defaulting once.
set_defaults_idem : (rr : ResolutionRequest) → set_defaults (set_defaults rr) ≡ set_defaults rr
unfolding set_defaults
set_defaults_idem rr = ground (arith)

-- ===== src/Visit/Tests.antt =====
-- Visits to concrete requests.
use resolution.Prelude.{String, ◌≡◌, refl, true, false, Bool, none, some, [], ◌∷◌, arith}
use resolution.Prelude.Int.{saturate64}
use resolution.Common.{message_waiting_for_resolver, reason_resolution_in_progress}
use resolution.Api.{condition_false, condition_unknown, ResolutionRequest}
use resolution.Api.Lifecycle.{
  get_condition, is_done, initialize_conditions, mark_in_progress, mark_succeeded,
}
use resolution.Cluster.Memory.{memory}
use resolution.Cluster.Slot.{Slot}
use resolution.Core.{reconcile_request, request_duration}
use resolution.Knative.Batch.{batch}
use resolution.Knative.Manager.{succeeded}
use resolution.Samples.{request_with, open_request, language, listing, split_key}
use resolution.Visit.{attempt, update_status, visit}
use resolution.Visit.Retrying.{retrying}
use resolution.Visit.Outdated.{visit-lands, visit-forgets}

abbrev everyone : String → String → Bool
everyone ns name = true

-- Data has arrived.
abbrev pub resolved_request : ResolutionRequest
resolved_request = request_with [] (some language) (65 ∷ 81 ∷ 61 ∷ 61 ∷ [])

-- A failed request, of which no generation was observed.
abbrev failed_request : ResolutionRequest
failed_request = record open_request {
  status = record open_request.status {
    duck = record {
      observed_generation = 0;
      conditions = succeeded condition_false "ResolutionFailed" "no such file" ∷ [];
      annotations = none;
    };
  };
}

visit-lands_example :
    (new : ResolutionRequest) × ((visit batch memory retrying split_key everyone
        (listing resolved_request)
        5
        6
        "team/job"
        (some resolved_request)).0
      ≡ (reconcile_request batch 5 6 (retrying.pre_process resolved_request)).0)
    × (memory.stored "team" "job"
          (visit batch memory retrying split_key everyone
            (listing resolved_request)
            5
            6
            "team/job"
            (some resolved_request)).1
        ≡ some new)
    × (get_condition batch new.status
        ≡ get_condition batch
            (reconcile_request batch 5 6 (retrying.pre_process resolved_request)).1.status)
    × (new.status.fields ≡ resolved_request.status.fields)
unfolding reconcile_request is_done initialize_conditions mark_succeeded update_status attempt
visit-lands_example =
    visit-lands batch memory retrying split_key everyone (listing resolved_request) 5 6 "team/job"
      "team" "job" resolved_request resolved_request (some resolved_request) refl refl refl refl
      refl refl refl

visit-forgets_example :
    (new : ResolutionRequest) × (memory.stored "team" "job"
        (visit batch memory retrying split_key everyone
          (listing failed_request)
          5
          6
          "team/job"
          (some failed_request)).1
      ≡ some new)
    × (get_condition batch new.status
        ≡ some (
            succeeded condition_unknown reason_resolution_in_progress message_waiting_for_resolver))
unfolding reconcile_request is_done initialize_conditions mark_in_progress update_status attempt
    request_duration saturate64
visit-forgets_example =
    visit-forgets batch memory retrying split_key everyone (listing failed_request) 5 6 "team/job"
      "team" "job" failed_request failed_request (some failed_request) refl refl refl refl refl refl
      "ResolutionFailed" "no such file" refl (λ e. omega arith) refl (omega arith)

abbrev conditions_of : Slot → Bool
conditions_of none = false
conditions_of (some rr) = is_done batch rr

-- ===== src/Core.antt =====
-- pkg/reconciler/resolutionrequest/resolutionrequest.go: the reconciler that enforces the global
-- timeout and completes the requests whose data has arrived.
pub mod Outcomes
pub mod Timeout
mod Tests
use Prim.Native.String.{◌++◌}
use resolution.Prelude.{
  ℕ, String, Bool, true, false, not, Option, none, some, is_none, is_nil, if◌then◌else◌,
}
use resolution.Prelude.Int.{ℤ, pos, sub_ℕ, ltb_ℤ, ◌-ℤ◌, saturate64, wrap64}
use resolution.Common.{message_waiting_for_resolver, reason_resolution_timed_out}
use resolution.Api.{ResolutionRequest}
use resolution.Api.Lifecycle.{
  get_condition, is_done, initialize_conditions, mark_failed, mark_succeeded, mark_in_progress,
}
use resolution.Knative.Manager.{Manager}
use resolution.Knative.Outcome.{Outcome, requeue_after}

-- defaultMaximumResolutionDuration, 1 * time.Minute in nanoseconds
abbrev pub default_maximum_resolution_duration : ℤ
default_maximum_resolution_duration = pos 60_000_000_000

-- requestDuration, where `now` is what time.Now() answers
unfoldable pub request_duration : ℕ → ResolutionRequest → ℤ
request_duration now rr = saturate64 (sub_ℕ now rr.object_meta.creation_timestamp)

-- defaultMaximumResolutionDuration - requestDuration(rr), an `int64` subtraction
unfoldable pub delay : ℕ → ResolutionRequest → ℤ
unfolding request_duration
delay now rr = wrap64 (default_maximum_resolution_duration -ℤ request_duration now rr)

abbrev pub timeout_message : String
timeout_message = "resolution took longer than global timeout of 1m0s"

module _ (k : Manager) where
  -- The switch of ReconcileKind, on a request that has a condition. The clock is read once for the
  -- test, and once more for the delay.
  dispatch : ℕ → ℕ → ResolutionRequest → Option Outcome × ResolutionRequest
  dispatch now later rr =
      if not (is_nil rr.status.fields.payload)
      then (none, record rr { status = mark_succeeded k rr.status })
      else if ltb_ℤ default_maximum_resolution_duration (request_duration now rr)
      then (
        none,
        record rr { status = mark_failed k reason_resolution_timed_out timeout_message rr.status },
      )
      else (
        some (requeue_after (delay later rr)),
        record rr { status = mark_in_progress k message_waiting_for_resolver rr.status },
      )

  -- A request without a condition gets its initial one.
  prepare : ResolutionRequest → ResolutionRequest
  prepare rr =
      if is_none (get_condition k rr.status)
      then record rr { status = initialize_conditions k rr.status }
      else rr

  -- ReconcileKind on a request that is not nil; it is mutated in place.
  unfoldable pub reconcile_request : ℕ → ℕ → ResolutionRequest → Option Outcome × ResolutionRequest
  unfolding dispatch prepare
  reconcile_request now later rr =
      if is_done k rr then (none, rr) else dispatch now later (prepare rr)

  unfoldable pub reconcile_kind :
      ℕ → ℕ → Option ResolutionRequest → Option Outcome × Option ResolutionRequest
  unfolding reconcile_request
  reconcile_kind now later none = (none, none)
  reconcile_kind now later (some rr) =
      let (event, rr') = reconcile_request now later rr in (event, some rr')

-- ===== src/Core/Outcomes.antt =====
-- What ReconcileKind does to a request, branch by branch.
use resolution.Prelude.{
  ℕ, ◌+◌, ◌≤◌, ◌<◌, ◌^◌, ◌≡◌, ◌≢◌, refl, sym, ap, ◌∙◌, true, false, Option, none, some, [], arith,
  sprintf,
}
use mathlib.Core.Path.{subst}
use resolution.Prelude.Int.{ℤ, pos, ◌+ℤ◌, ◌-ℤ◌, saturate64, wrap64}
use resolution.Common.{
  message_waiting_for_resolver, reason_resolution_timed_out, reason_resolution_in_progress,
}
use resolution.Api.{
  Condition, condition_true, condition_false, condition_unknown, ResolutionRequest,
}
use resolution.Api.Lifecycle.{
  get_condition, is_done, initialize_conditions, mark_failed, mark_succeeded, mark_in_progress,
}
use resolution.Api.Lifecycle.Marks.{get-mark_succeeded, get-mark_failed, get-mark_in_progress}
use resolution.Knative.Manager.{Manager, succeeded}
use resolution.Knative.Outcome.{Outcome, requeue_after}
use resolution.Core.{request_duration, timeout_message, delay, dispatch, prepare, reconcile_request}

-- The deadline of a request, on the clock that time.Now() reads.
abbrev pub deadline : ResolutionRequest → ℕ
deadline rr = rr.object_meta.creation_timestamp + 60_000_000_000

-- All of a request but its conditions.
pub record SameButConditions (a b : ResolutionRequest) : Type 0 where
  pub type_meta : b.type_meta ≡ a.type_meta
  pub object_meta : b.object_meta ≡ a.object_meta
  pub spec : b.spec ≡ a.spec
  pub fields : b.status.fields ≡ a.status.fields
  pub annotations : b.status.duck.annotations ≡ a.status.duck.annotations
  pub observed : b.status.duck.observed_generation ≡ a.status.duck.observed_generation

module _ (k : Manager) (rr : ResolutionRequest) where
  prepare-SameButConditions : SameButConditions rr (prepare k rr)
  unfolding prepare initialize_conditions
  prepare-SameButConditions = ground arith

  dispatch-SameButConditions : (now later : ℕ) → SameButConditions rr (dispatch k now later rr).1
  unfolding dispatch mark_succeeded mark_failed mark_in_progress
  dispatch-SameButConditions now later = ground arith

module _ (k : Manager) (now later : ℕ) (rr : ResolutionRequest) where
  dispatch_data :
      rr.status.fields.payload ≢ []
      → dispatch k now later rr ≡ (none, record rr { status = mark_succeeded k rr.status })
  unfolding dispatch
  dispatch_data h = ground arith

  dispatch_late :
      rr.status.fields.payload ≡ []
      → deadline rr < now
      → dispatch k now later rr ≡ (
        none,
        record rr { status = mark_failed k reason_resolution_timed_out timeout_message rr.status },
      )
  unfolding dispatch request_duration saturate64
  dispatch_late h l = ground arith

  dispatch_early :
      rr.status.fields.payload ≡ []
      → now ≤ deadline rr
      → dispatch k now later rr ≡ (
        some (requeue_after (delay later rr)),
        record rr { status = mark_in_progress k message_waiting_for_resolver rr.status },
      )
  unfolding dispatch request_duration saturate64 delay
  dispatch_early h l = ground arith

-- A request that is done is returned as it is, whatever the clock says.
pub reconcile_request-done :
    (k : Manager) (now later : ℕ) (rr : ResolutionRequest)
    → is_done k rr ≡ true
    → reconcile_request k now later rr ≡ (none, rr)
unfolding reconcile_request
reconcile_request-done k now later rr h = rw h

reconcile_request-dispatch :
    (k : Manager) (now later : ℕ) (rr : ResolutionRequest)
    → is_done k rr ≡ false
    → reconcile_request k now later rr ≡ dispatch k now later (prepare k rr)
unfolding reconcile_request
reconcile_request-dispatch k now later rr h = rw h

-- Reconciling changes nothing of a request but its conditions, on any branch.
pub reconcile_request-SameButConditions :
    (k : Manager) (now later : ℕ) (rr : ResolutionRequest)
    → SameButConditions rr (reconcile_request k now later rr).1
unfolding reconcile_request
reconcile_request-SameButConditions k now later rr =
    ground
      (arith, prepare-SameButConditions k rr, dispatch-SameButConditions k (prepare k rr) now later)

module _ (k : Manager) (later : ℕ) (rr : ResolutionRequest) where
  payload-prepare : (prepare k rr).status.fields.payload ≡ rr.status.fields.payload
  payload-prepare = ap (λ f. f.payload) (prepare-SameButConditions k rr).fields

  deadline-prepare : deadline (prepare k rr) ≡ deadline rr
  deadline-prepare =
      ap (λ m. m.creation_timestamp + 60_000_000_000) (prepare-SameButConditions k rr).object_meta

  delay-prepare : delay later (prepare k rr) ≡ delay later rr
  unfolding delay request_duration
  delay-prepare = rw (prepare-SameButConditions k rr).object_meta

  pub deadline-reconcile : (now : ℕ) → deadline (reconcile_request k now later rr).1 ≡ deadline rr
  deadline-reconcile now =
      ap (λ m. m.creation_timestamp + 60_000_000_000)
        (reconcile_request-SameButConditions k now later rr).object_meta

  prepared_delay :
      (now : ℕ) (d : ℤ)
      → (reconcile_request k now later rr).0 ≡ some (requeue_after d)
      → d ≡ delay later (prepare k rr)
  unfolding reconcile_request dispatch
  prepared_delay now d h = ground arith

  -- The delay that a requeue asks for is computed from the request and the second reading.
  pub requeue_delay :
      (now : ℕ) (d : ℤ)
      → (reconcile_request k now later rr).0 ≡ some (requeue_after d)
      → d ≡ delay later rr
  requeue_delay now d h = prepared_delay now d h ∙ delay-prepare

-- What a reconciliation answers the queue, and the condition that it leaves.
abbrev pub Results :
    Manager → Option Outcome × ResolutionRequest → Option Outcome → Condition → Type 0
Results k r event c = (r.0 ≡ event) × (get_condition k r.1.status ≡ some c)

module _ (k : Manager) (now later : ℕ) (rr : ResolutionRequest) (open_ : is_done k rr ≡ false) where
  dispatched :
      (event : Option Outcome) (r : ResolutionRequest) (c : Condition)
      → dispatch k now later (prepare k rr) ≡ (event, r)
      → get_condition k r.status ≡ some c
      → Results k (reconcile_request k now later rr) event c
  dispatched event r c e h =
      subst (λ q. Results k q event c) (sym (reconcile_request-dispatch k now later rr open_ ∙ e))
        (refl, h)

  -- A request whose data has arrived succeeds, also after its deadline.
  pub reconcile_request-data :
      rr.status.fields.payload ≢ []
      → Results k (reconcile_request k now later rr) none (succeeded condition_true "" "")
  reconcile_request-data h =
      dispatched none _ _
        (dispatch_data k now later _ (λ e. h (sym (payload-prepare k later rr) ∙ e)))
        (get-mark_succeeded k _)

  -- A request without data fails once its deadline has passed.
  pub reconcile_request-late :
      rr.status.fields.payload ≡ []
      → deadline rr < now
      → Results k
          (reconcile_request k now later rr)
          none
          (succeeded condition_false reason_resolution_timed_out timeout_message)
  unfolding sprintf
  reconcile_request-late h l =
      dispatched none _ _
        (dispatch_late k now later _ (payload-prepare k later rr ∙ h)
          (omega (arith, deadline-prepare k later rr)))
        (get-mark_failed k _ _ _)

  -- Until then it is in progress, and is looked at again after the rest of its minute.
  pub reconcile_request-early :
      rr.status.fields.payload ≡ []
      → now ≤ deadline rr
      → Results k
          (reconcile_request k now later rr)
          (some (requeue_after (delay later rr)))
          (succeeded condition_unknown reason_resolution_in_progress message_waiting_for_resolver)
  unfolding sprintf
  reconcile_request-early h l = rw (← delay-prepare k later rr) (
      dispatched _ _ _
        (dispatch_early k now later _ (payload-prepare k later rr ∙ h)
          (omega (arith, deadline-prepare k later rr)))
        (get-mark_in_progress k _ _))

-- The delay of a requeue ends at the deadline, to the nanosecond, whenever the second reading of the
-- clock is less than a century away from the request's creation.
pub delay_exact :
    (later : ℕ) (rr : ResolutionRequest)
    → later < rr.object_meta.creation_timestamp + 2 ^ 61
    → rr.object_meta.creation_timestamp < later + 2 ^ 61
    → pos later +ℤ delay later rr ≡ pos (deadline rr)
unfolding delay request_duration saturate64 wrap64 ◌-ℤ◌ ◌+ℤ◌
delay_exact later rr h g = ground arith

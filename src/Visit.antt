-- ===== src/Visit.antt =====
-- pkg/client/injection/reconciler/resolution/v1alpha1/resolutionrequest: what surrounds ReconcileKind
-- when the core controller takes a key from its queue (reconciler.go, state.go). The core
-- reconciler implements neither of the optional interfaces (Finalizer, ReadOnlyInterface,
-- OnDeletionInterface) and is set up without options; the code is taken at that.
pub mod Writes
pub mod Outdated
pub mod Incomplete
pub mod Local
pub mod Fresh
pub mod Retrying
pub mod Tests
use resolution.Prelude.{
  ℕ, zero, suc, String, ◌≡◌, ◌≢◌, Bool, true, false, Option, none, some, is_none, Result, ok, err,
  if◌then◌else◌,
}
use resolution.Common.Errors.{Error}
use resolution.Api.{condition_unknown, ResolutionRequestStatus, ResolutionRequest}
use resolution.Api.Lifecycle.{get_condition}
use resolution.Cluster.{ApiServer}
use resolution.Core.{reconcile_request}
use resolution.Knative.Manager.{Manager, succeeded, or_unknown}
use resolution.Knative.Outcome.{Outcome, failed, skip_key}

-- What the attempts that RetryUpdateConflicts makes come to: it ends with one of them, and goes on
-- from another only after that one's error.
pub data Attempts {C : Type 0} (f : ℕ → C → Option Error × C)
    : ℕ → C → Option Error × C → Type 0 where
  last : (n : ℕ) (c : C) → Attempts f n c (f n c)
  again :
      (n : ℕ) (c : C) (e : Error) (r : Option Error × C)
      → (f n c).0 ≡ some e
      → Attempts f (suc n) (f n c).1 r
      → Attempts f n c r

-- All that a library step leaves of a request.
pub record Kept (a b : ResolutionRequest) : Type 0 where
  pub object_meta : b.object_meta ≡ a.object_meta
  pub spec : b.spec ≡ a.spec
  pub fields : b.status.fields ≡ a.status.fields

-- knative.dev/pkg/reconciler and the equality of k8s.io/apimachinery
pub record Support (k : Manager) (C : Type 0) : Type 0 where
  pub is_not_found : Error → Bool
  -- equality.Semantic.DeepEqual of two statuses
  pub same_status : ResolutionRequestStatus → ResolutionRequestStatus → Bool
  pub pre_process : ResolutionRequest → ResolutionRequest
  pub post_process : ResolutionRequest → ResolutionRequest → ResolutionRequest
  pub retry_update_conflicts : (ℕ → C → Option Error × C) → C → Option Error × C
  pub same_status_refl : (s : ResolutionRequestStatus) → same_status s s ≡ true
  -- Equal statuses have the same condition, the same data and the same observed generation.
  pub same_status-condition :
      (s t : ResolutionRequestStatus)
      → same_status s t ≡ true
      → get_condition k s ≡ get_condition k t
  pub same_status-fields :
      (s t : ResolutionRequestStatus) → same_status s t ≡ true → s.fields ≡ t.fields
  pub same_status-observed :
      (s t : ResolutionRequestStatus)
      → same_status s t ≡ true
      → s.duck.observed_generation ≡ t.duck.observed_generation
  -- Before: the condition is initialized, and is reset if the generation is not the observed one.
  pub pre_process-kept : (rr : ResolutionRequest) → Kept rr (pre_process rr)
  pub pre_process-current :
      (rr : ResolutionRequest)
      → rr.status.duck.observed_generation ≡ rr.object_meta.generation
      → get_condition k (pre_process rr).status ≡ some (or_unknown (get_condition k rr.status))
  pub pre_process-outdated :
      (rr : ResolutionRequest)
      → rr.status.duck.observed_generation ≢ rr.object_meta.generation
      → get_condition k (pre_process rr).status
        ≡ some (
            succeeded condition_unknown "NewObservedGenFailure"
              "unsuccessfully observed a new generation")
  -- After: the generation counts as observed.
  pub post_process-kept : (rr original : ResolutionRequest) → Kept rr (post_process rr original)
  pub post_process-condition :
      (rr original : ResolutionRequest)
      → get_condition k (post_process rr original).status ≡ get_condition k rr.status
  pub post_process-observed :
      (rr original : ResolutionRequest)
      → (post_process rr original).status.duck.observed_generation ≡ rr.object_meta.generation
  pub retry-Attempts :
      (f : ℕ → C → Option Error × C) (c : C) → Attempts f 0 c (retry_update_conflicts f c)

module _ {C : Type 0} (k : Manager) (a : ApiServer C) (lib : Support k C) where
  abbrev pub error_only : Result Error ResolutionRequest × C → Option Error × C
  error_only (ok u, c) = (none, c)
  error_only (err e, c) = (some e, c)

  -- The rest of an attempt, once it has the object that it is to write.
  unfoldable pub write_status : ResolutionRequest → ResolutionRequest → C → Option Error × C
  write_status existing desired c =
      if lib.same_status existing.status desired.status
      then (none, c)
      else error_only (
          a.update_status existing.object_meta.namespace
            (record existing { status = desired.status }) c)

  -- One attempt of updateStatus: the first writes onto the listed object, the others fetch it.
  unfoldable pub attempt : ResolutionRequest → ResolutionRequest → ℕ → C → Option Error × C
  unfolding write_status
  attempt existing desired zero c = write_status existing desired c
  attempt existing desired (suc n) c =
      elim (a.get desired.object_meta.namespace desired.object_meta.name c) [
        | err e ↦ (some e, c)
        | ok latest ↦ write_status latest desired c
      ]

  -- updateStatus
  unfoldable pub update_status : ResolutionRequest → ResolutionRequest → C → Option Error × C
  update_status existing desired c = lib.retry_update_conflicts (attempt existing desired) c

  abbrev pub reported : Option Outcome → Option Error × C → Option Outcome × C
  reported event (none, c) = (event, c)
  reported event (some e, c) = (some (failed e), c)

  -- The synchronization of the status, and the event that is returned.
  unfoldable pub synchronize :
      Option Outcome → ResolutionRequest → ResolutionRequest → C → Option Outcome × C
  unfolding update_status
  synchronize event original resource c =
      if lib.same_status original.status resource.status
      then (event, c)
      else reported event (update_status original resource c)

  -- The copy after ReconcileKind and what stands before and after it.
  abbrev pub processed : ℕ → ℕ → ResolutionRequest → ResolutionRequest
  processed now later original =
      lib.post_process (reconcile_request k now later (lib.pre_process original)).1 original

  -- Reconcile on the listed object; one that is being deleted has no method, since there is no
  -- finalizer.
  unfoldable pub visit_listed : ℕ → ℕ → ResolutionRequest → C → Option Outcome × C
  unfolding synchronize
  visit_listed now later original c =
      if is_none original.object_meta.deletion_timestamp
      then synchronize (reconcile_request k now later (lib.pre_process original)).0 original
          (processed now later original) c
      else synchronize none original original c

  -- Reconcile; `split` is cache.SplitMetaNamespaceKey, and the clock is read by ReconcileKind.
  unfoldable pub visit :
      (String → Result Error (String × String))
      → (String → String → Bool)
      → (String → String → Result Error ResolutionRequest)
      → ℕ
      → ℕ
      → String
      → C
      → Option Outcome × C
  visit split is_leader_for lister now later key c = elim (split key) [
    | err e ↦ (none, c)
    | ok (ns, name) ↦ elim (is_leader_for ns name) [
      | false ↦ (some (skip_key key), c)
      | true ↦ elim (lister ns name) [
        | err e ↦ if lib.is_not_found e then (none, c) else (some (failed e), c)
        | ok original ↦ visit_listed now later original c
      ]
    ]
  ]

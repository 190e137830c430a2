-- ===== src/Generated.antt =====
-- pkg/client/injection/reconciler/resolution/v1alpha1/resolutionrequest, in full (reconciler.go and
-- state.go): the reconciler that is generated around any implementation of its interfaces. The one
-- around the core controller's is that of Visit.
pub mod Sets
pub mod Construction
pub mod Finalizers
pub mod Reconcile
pub mod Follower
pub mod Core
pub mod Starting
mod Tests
use Prim.Native.String.{◌++◌ as append}
use resolution.Prelude.{
  String, Bool, true, false, ◌&&◌, not, Option, none, some, is_none, List, [], ◌∷◌, ◌++◌, length,
  leb, Result, ok, err, ◌==◌, if◌then◌else◌,
}
use resolution.Common.Errors.{Error, plain}
use resolution.Common.Context.{Ctx}
use resolution.Api.{ResolutionRequest}
use resolution.Knative.Outcome.{Outcome}

-- reconciler.Event, a non-nil error: a *ReconcilerEvent by its type, its reason and its text; an error
-- in whose chain EventAs finds one; any other.
pub data Event : Type 0 where
  reconciler_event : String → String → String → Event
  wrapping : String → String → String → Error → Event
  other : Outcome → Event

-- What an EventRecorder is told: the event's type, its reason and its message.
pub record Recorded : Type 0 where
  pub event_type : String
  pub reason : String
  pub message : String

-- What the steps change: the cluster, and what was recorded.
pub record Session (C : Type 0) : Type 0 where
  pub cluster : C
  pub recorded : List Recorded

abbrev pub record_event : {C : Type 0} → String → String → String → Session C → Session C
record_event event_type reason message s = record s {
  recorded =
      s.recorded ++ record { event_type = event_type; reason = reason; message = message } ∷ [];
}

-- doReconcile: it mutates the request, and may call the cluster.
abbrev pub DoReconcile : Type 0 → Type 0
DoReconcile C = Ctx → ResolutionRequest → Session C → (Option Event × ResolutionRequest) × Session C

-- Interface with the optional Finalizer, ReadOnlyInterface and OnDeletionInterface, and whether the
-- implementation is a reconciler.LeaderAware by itself.
pub record Interface (C : Type 0) : Type 0 where
  pub reconcile_kind : DoReconcile C
  pub finalize_kind : Option (DoReconcile C)
  pub observe_kind : Option (DoReconcile C)
  pub observe_deletion : Option (Ctx → String → String → Session C → Option Event × Session C)
  pub is_leader_aware : Bool

-- controller.Options, of the fields that are read; `D` is the type of a DemoteFunc.
pub record Options (D : Type 0) : Type 0 where
  pub config_store : Option (Ctx → Ctx)
  pub finalizer_name : String
  pub skip_status_updates : Bool
  pub demote_func : Option D

-- reconcilerImpl; the client is the API server that the functions are given.
pub record ReconcilerImpl (C D : Type 0) : Type 0 where
  pub demote_func : Option D
  pub lister : String → String → Result Error ResolutionRequest
  pub config_store : Option (Ctx → Ctx)
  pub reconciler : Interface C
  pub finalizer_name : String
  pub skip_status_updates : Bool

abbrev pub default_finalizer_name : String
default_finalizer_name = "resolutionrequests.resolution.tekton.dev"

-- logger.Fatal of NewReconciler
pub data Fatal : Type 0 where
  too_many_options incorrect_leader_aware : Fatal

abbrev or_previous : {A : Type 0} → Option A → Option A → Option A
or_previous none old = old
or_previous (some new) old = some new

module _ {C D : Type 0} where
  -- The loop over the options.
  unfoldable pub apply_options : List (Options D) → ReconcilerImpl C D → ReconcilerImpl C D
  apply_options [] rec = rec
  apply_options (opts ∷ options) rec = apply_options options (record rec {
    config_store = or_previous opts.config_store rec.config_store;
    finalizer_name = if opts.finalizer_name == "" then rec.finalizer_name else opts.finalizer_name;
    skip_status_updates = if opts.skip_status_updates then true else rec.skip_status_updates;
    demote_func = or_previous opts.demote_func rec.demote_func;
  })

  -- NewReconciler
  unfoldable pub new_reconciler :
      (String → String → Result Error ResolutionRequest)
      → Interface C
      → List (Options D)
      → Result Fatal (ReconcilerImpl C D)
  unfolding apply_options
  new_reconciler lister r options =
      if leb (length options) 1
      then if r.is_leader_aware
        then err incorrect_leader_aware
        else ok (
            apply_options options (record {
              demote_func = none;
              lister = lister;
              config_store = none;
              reconciler = r;
              finalizer_name = default_finalizer_name;
              skip_status_updates = false;
            }))
      else err too_many_options

-- state
pub record State : Type 0 where
  pub key : String
  pub namespace : String
  pub name : String
  pub is_roi : Bool
  pub is_leader : Bool

-- What reconcileMethodFor returns: the method with its name.
pub data Target (C : Type 0) : Type 0 where
  do_reconcile_kind do_finalize_kind do_observe_kind : DoReconcile C → Target C
  unknown : Target C

module _ {C : Type 0} (split : String → Result Error (String × String))
    (is_leader_for : String → String → Bool) where
  -- newState, from what SplitMetaNamespaceKey returns
  abbrev pub split_state :
      String → Interface C → Result Error (String × String) → Result Error State
  split_state key r (err e) = err (plain (append "invalid resource key: " key))
  split_state key r (ok (namespace, name)) = ok (record {
    key = key;
    namespace = namespace;
    name = name;
    is_roi = not (is_none r.observe_kind);
    is_leader = is_leader_for namespace name;
  })

  unfoldable pub new_state : String → Interface C → Result Error State
  new_state key r = split_state key r (split key)

abbrev pub is_not_leader_nor_observer : State → Bool
is_not_leader_nor_observer s = not s.is_leader && not s.is_roi

abbrev observing : {C : Type 0} → Option (DoReconcile C) → Target C
observing none = unknown
observing (some f) = do_observe_kind f

abbrev finalizing : {C : Type 0} → Bool → Option (DoReconcile C) → Target C
finalizing true (some f) = do_finalize_kind f
finalizing _ _ = unknown

-- reconcileMethodFor
unfoldable pub reconcile_method_for :
    {C : Type 0} → State → Interface C → ResolutionRequest → Target C
reconcile_method_for s r o =
    if is_none o.object_meta.deletion_timestamp
    then if s.is_leader
      then do_reconcile_kind r.reconcile_kind
      else if s.is_roi
      then observing r.observe_kind
      else unknown
    else finalizing s.is_leader r.finalize_kind

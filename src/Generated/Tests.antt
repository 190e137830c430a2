-- ===== src/Generated/Tests.antt =====
-- Generated reconcilers around concrete methods.
use resolution.Prelude.{
  String, ◌≡◌, refl, sym, ap, ok_injective, Bool, true, false, none, some, some_injective, List, [],
  ◌∷◌, Result, ok,
}
use resolution.Common.Errors.{Error}
use resolution.Api.{ResolutionRequest}
use resolution.Cluster.{Json, text, array, object, member, end}
use resolution.Cluster.Memory.{memory}
use resolution.Cluster.Slot.{Slot}
use resolution.Knative.Batch.{batch}
use resolution.Samples.{open_request, listing, split_key}
use resolution.Visit.Retrying.{retrying}
use resolution.Generated.{Session, Interface, ReconcilerImpl, default_finalizer_name}
use resolution.Api.Lifecycle.{get_condition, is_done, initialize_conditions, mark_succeeded}
use resolution.Core.{reconcile_request}
use resolution.Visit.{update_status, attempt}
use resolution.Visit.Tests.{resolved_request}
use resolution.Generated.Starting.{CoreController, new_core_controller, new_core_controller-lands}
use resolution.Generated.Construction.{ImplOptions}
use resolution.Generated.Core.{as_event, core}
use resolution.Generated.Finalizers.{
  with_finalizers, finalizer_patch, next_finalizers, send_finalizers, marshal_finalizers,
  update_finalizers_filtered, set_finalizer_if_finalizer,
}
use resolution.Generated.Finalizers.Filtered.{set_finalizer-has}
use resolution.Generated.Follower.{reconcile-follower}
use resolution.Generated.Reconcile.{reconcile}
use resolution.Generated.Sets.{has}
use resolution.Resource.Name.{insert, sort_strings}

abbrev patched_finalizers : Json → List String
patched_finalizers
      (object (member m (object (member f (array finalizers) (member r (text v) end))) end)) =
    finalizers
patched_finalizers _ = []

-- Patches of finalizers, on a slot with one request.
abbrev patch : String → String → Json → Slot → Result Error ResolutionRequest × Slot
patch ns name doc c = (ok (with_finalizers open_request (patched_finalizers doc)), c)

abbrev session : Session Slot
session = record { cluster = some open_request; recorded = [] }

abbrev everyone : String → String → Bool
everyone ns name = true

abbrev core_impl : ReconcilerImpl Slot Unit
core_impl = record {
  demote_func = none;
  lister = listing open_request;
  config_store = none;
  reconciler = core batch 5 6;
  finalizer_name = default_finalizer_name;
  skip_status_updates = false;
}

abbrev resolved_session : Session Slot
resolved_session = record { cluster = some resolved_request; recorded = [] }

new_core_controller-lands_example :
    let of_kind = reconcile_request batch 5 6 (retrying.pre_process resolved_request) in
    (x : CoreController Slot Unit) × (new : ResolutionRequest) × (new_core_controller batch 5 6
        (listing resolved_request)
      ≡ ok x)
    × ((reconcile batch memory retrying patch split_key everyone x.built.rec [] "team/job"
          resolved_session).0
        ≡ as_event of_kind.0)
    × (memory.stored "team" "job"
          (reconcile batch memory retrying patch split_key everyone x.built.rec [] "team/job"
            resolved_session).1.cluster
        ≡ some new)
    × (get_condition batch new.status ≡ get_condition batch of_kind.1.status)
    × (new.status.fields ≡ resolved_request.status.fields)
unfolding reconcile_request is_done initialize_conditions mark_succeeded update_status attempt
new_core_controller-lands_example =
    new_core_controller-lands Unit batch memory retrying patch split_key everyone
      (listing resolved_request) 5 6 [] "team/job" "team" "job" resolved_session resolved_request
      resolved_request refl refl refl refl refl refl refl

-- A reconciler that finalizes, and its request with another's finalizer.
abbrev cleaner : Interface Slot
cleaner = record {
  reconcile_kind = λ ctx rr s. ((none, rr), s);
  finalize_kind = some (λ ctx rr s. ((none, rr), s));
  observe_kind = none;
  observe_deletion = none;
  is_leader_aware = false;
}

abbrev held_request : ResolutionRequest
held_request = with_finalizers open_request ("foreground" ∷ [])

abbrev cleaning : ReconcilerImpl Slot Unit
cleaning = record core_impl { reconciler = cleaner; lister = listing held_request }

patch_answers :
    (ns name version : String) (finalizers : List String) (u : ResolutionRequest) (c : Slot)
    → (patch ns name (finalizer_patch finalizers version) c).0 ≡ ok u
    → u.object_meta.finalizers ≡ finalizers
patch_answers ns name version finalizers u c h =
    ap (λ x. x.object_meta.finalizers) (sym (ok_injective h))

set_finalizer-has_example :
    has
      (with_finalizers open_request
        ("foreground" ∷ default_finalizer_name ∷ [])).object_meta.finalizers
      default_finalizer_name
    ≡ true
unfolding set_finalizer_if_finalizer update_finalizers_filtered send_finalizers marshal_finalizers
    next_finalizers insert sort_strings
set_finalizer-has_example =
    set_finalizer-has patch cleaning patch_answers refl held_request
      (with_finalizers open_request ("foreground" ∷ default_finalizer_name ∷ [])) session refl refl

-- The same request, being deleted, with the finalizer of the reconciler on it.
abbrev deleted_request : ResolutionRequest
deleted_request = record held_request {
  object_meta = record held_request.object_meta {
    deletion_timestamp = some 9;
    finalizers = default_finalizer_name ∷ "foreground" ∷ [];
  };
}

abbrev deleting : ReconcilerImpl Slot Unit
deleting = record core_impl { reconciler = cleaner; lister = listing deleted_request }

-- A reconciler that observes.
abbrev observer : Interface Slot
observer = record {
  reconcile_kind = λ ctx rr s. ((none, rr), record s { cluster = none });
  finalize_kind = none;
  observe_kind = some (λ ctx rr s. ((none, open_request), s));
  observe_deletion = none;
  is_leader_aware = false;
}

abbrev observing_impl : ReconcilerImpl Slot Unit
observing_impl = record core_impl { reconciler = observer }

abbrev no_one : String → String → Bool
no_one ns name = false

reconcile-follower_example :
    (reconcile batch memory retrying patch split_key no_one observing_impl [] "team/job"
      session).1.cluster
    ≡ some open_request
reconcile-follower_example =
    reconcile-follower batch memory retrying patch split_key no_one observing_impl
      (λ f ctx rr s e. ap (λ g. (g ctx rr s).1.cluster) (sym (some_injective e)))
      (λ f ctx ns name s e. cc) (λ ns name. refl) [] "team/job" session

abbrev named_options : ImplOptions Unit
named_options = record {
  options = record {
    config_store = none;
    finalizer_name = "mine";
    skip_status_updates = true;
    demote_func = none;
  };
  agent_name = "";
  promote_filter_func = none;
}

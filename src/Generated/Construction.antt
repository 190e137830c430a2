-- ===== src/Generated/Construction.antt =====
-- NewImpl (controller.go of the same package), which builds a reconciler with its controller, and the
-- PromoteFunc that it and NewReconciler give to their reconcilers.
use Prim.Native.String.{◌++◌ as append}
use resolution.Prelude.{
  String, ◌≡◌, refl, Bool, true, false, Option, none, some, List, [], ◌∷◌, map, length, leb, Result,
  ok, err, ok_injective, ◌==◌, if◌then◌else◌, arith,
}
use resolution.Common.Errors.{Error}
use resolution.Api.{ResolutionRequest}
use resolution.Generated.{
  Interface, Options, ReconcilerImpl, Fatal, too_many_options, incorrect_leader_aware, or_previous,
  apply_options, new_reconciler, default_finalizer_name,
}

-- controller.Options, with the fields that NewImpl reads besides
pub record ImplOptions (D : Type 0) : Type 0 where
  pub options : Options D
  pub agent_name : String
  pub promote_filter_func : Option (ResolutionRequest → Bool)

-- What NewImpl leaves: the reconciler, what its PromoteFunc filters by, the name for its events, and
-- that of its work queue.
pub record Built (C D : Type 0) : Type 0 where
  pub rec : ReconcilerImpl C D
  pub promote_filter_func : Option (ResolutionRequest → Bool)
  pub agent_name : String
  pub work_queue_name : String

abbrev key : ResolutionRequest → String × String
key elt = (elt.object_meta.namespace, elt.object_meta.name)

abbrev passes : Option (ResolutionRequest → Bool) → ResolutionRequest → Bool
passes none elt = true
passes (some filter) elt = filter elt

-- The loop of PromoteFunc
enqueued : Option (ResolutionRequest → Bool) → List ResolutionRequest → List (String × String)
enqueued filter [] = []
enqueued filter (elt ∷ all) =
    let rest = enqueued filter all in if passes filter elt then key elt ∷ rest else rest

-- PromoteFunc: its error, and the keys that it enqueues, from what the lister lists
unfoldable pub promote_func :
    Option (ResolutionRequest → Bool)
    → Result Error (List ResolutionRequest)
    → Option Error × List (String × String)
unfolding enqueued
promote_func filter (err e) = (some e, [])
promote_func filter (ok all) = (none, enqueued filter all)

-- strings.ReplaceAll(s, "/", ".")
dotted : String → String
dotted String.[] = ""
dotted (String.◌∷◌ ch s) =
    let rest = dotted s in if String.◌∷◌ ch "" == "/" then append "." rest else String.◌∷◌ ch rest

-- The controller's type, by the path of its package and its name
unfoldable pub controller_type_name : String → String → String
unfolding dotted
controller_type_name path name = dotted (append path (append "." name))

module _ {C D : Type 0} where
  -- The loop over the options
  apply_impl_options : List (ImplOptions D) → Built C D → Built C D
  apply_impl_options [] b = b
  apply_impl_options (opts ∷ more) b = apply_impl_options more (record b {
    rec = apply_options (opts.options ∷ []) b.rec;
    agent_name = if opts.agent_name == "" then b.agent_name else opts.agent_name;
    promote_filter_func = or_previous opts.promote_filter_func b.promote_filter_func;
  })

  -- NewImpl, from what the options functions return and what the type of `r` is
  unfoldable pub new_impl :
      (String → String → Result Error ResolutionRequest)
      → Interface C
      → String
      → String
      → List (ImplOptions D)
      → Result Fatal (Built C D)
  unfolding apply_impl_options controller_type_name
  new_impl lister r path name options =
      if leb (length options) 1
      then ok (
          apply_impl_options options (record {
            rec = record {
              demote_func = none;
              lister = lister;
              config_store = none;
              reconciler = r;
              finalizer_name = default_finalizer_name;
              skip_status_updates = false;
            };
            promote_filter_func = none;
            agent_name = "resolutionrequest-controller";
            work_queue_name = controller_type_name path name;
          }))
      else err too_many_options

  not_fatal :
      (aware : Bool) (built rec : ReconcilerImpl C D)
      → ◌≡◌ {A = Result Fatal (ReconcilerImpl C D)}
          (if aware then err incorrect_leader_aware else ok built)
          (ok rec)
      → built ≡ rec
  not_fatal true built rec h = cc
  not_fatal false built rec h = ok_injective h

  -- Where NewReconciler builds a reconciler, NewImpl builds, from the same options, the same.
  new_impl-new_reconciler :
      (lister : String → String → Result Error ResolutionRequest) (r : Interface C)
      (path name : String) (options : List (ImplOptions D)) (rec : ReconcilerImpl C D)
      → new_reconciler lister r (map (λ o. o.options) options) ≡ ok rec
      → (b : Built C D) × (new_impl lister r path name options ≡ ok b) × (b.rec ≡ rec)
  unfolding new_impl new_reconciler apply_options
  new_impl-new_reconciler lister r path name [] rec h = (_, refl, not_fatal _ _ rec h)
  new_impl-new_reconciler lister r path name (o ∷ []) rec h = (_, refl, not_fatal _ _ rec h)
  new_impl-new_reconciler lister r path name (o ∷ p ∷ rest) rec h = ground arith

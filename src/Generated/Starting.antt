-- ===== src/Generated/Starting.antt =====
-- NewController of pkg/reconciler/resolutionrequest/controller.go: the core controller in the generated
-- reconciler.
use resolution.Prelude.{
  ℕ, String, ◌≡◌, refl, ap, ◌∙◌, Bool, true, false, none, some, [], Result, ok, ◌>>=◌,
}
use resolution.Common.Errors.{Error}
use resolution.Common.Context.{Ctx}
use resolution.Api.{ResolutionRequest}
use resolution.Cluster.{ApiServer, Json}
use resolution.Framework.Setup.{EventHandler}
use resolution.Knative.Manager.{Manager}
use resolution.Api.Lifecycle.{get_condition}
use resolution.Core.{reconcile_request}
use resolution.Visit.{Support, visit, update_status, processed}
use resolution.Visit.Outdated.{visit-lands}
use resolution.Generated.{Session, Fatal}
use resolution.Generated.Construction.{Built, new_impl}
use resolution.Generated.Core.{as_event, core, impl-Agrees}
use resolution.Generated.Reconcile.{reconcile}

-- The controller, with the handler of the informer's events
pub record CoreController (C D : Type 0) : Type 0 where
  pub built : Built C D
  pub handler : EventHandler

-- controller.HandleAll(impl.Enqueue)
abbrev handle_all : EventHandler
handle_all = record {
  filter_func = λ obj. true;
  add_func = some (λ obj. obj);
  update_func = some (λ old_obj new_obj. new_obj);
  delete_func = some (λ obj. obj);
}

-- The core controller, for a manager of conditions and the clock's two readings
unfoldable pub new_core_controller :
    {C D : Type 0}
    → Manager
    → ℕ
    → ℕ
    → (String → String → Result Error ResolutionRequest)
    → Result Fatal (CoreController C D)
unfolding new_impl
new_core_controller k now later lister =
    new_impl lister (core k now later)
      "github.com/tektoncd/resolution/pkg/reconciler/resolutionrequest" "Reconciler" []
    >>= λ built. ok (record { built = built; handler = handle_all })

module _ {C : Type 0} (D : Type 0) (k : Manager) (a : ApiServer C) (lib : Support k C)
    (patch : String → String → Json → C → Result Error ResolutionRequest × C)
    (split : String → Result Error (String × String)) (is_leader_for : String → String → Bool)
    (lister : String → String → Result Error ResolutionRequest) (now later : ℕ) where
  -- NewController of the core controller succeeds. What it builds then answers to a key what the visit
  -- of the core controller answers, and leaves the same cluster, whatever the queue, the leader
  -- election, the lister, the clock and the server do.
  pub new_core_controller-visit :
      (ctx : Ctx) (key : String) (s : Session C)
      → (x : CoreController C D) × (new_core_controller k now later lister ≡ ok x)
        × ((reconcile k a lib patch split is_leader_for x.built.rec ctx key s).0
            ≡ as_event (visit k a lib split is_leader_for lister now later key s.cluster).0)
        × ((reconcile k a lib patch split is_leader_for x.built.rec ctx key s).1.cluster
            ≡ (visit k a lib split is_leader_for lister now later key s.cluster).1)
  unfolding new_core_controller new_impl
  new_core_controller-visit ctx key s =
      let agrees = impl-Agrees D k a lib patch split is_leader_for lister now later ctx key s in
      (_, refl, agrees.answer, agrees.cluster)

  -- The controller that NewController of the core controller builds, whatever the patches of finalizers
  -- do: for a key whose leader it is, whose listed request is not being deleted, and whose status the
  -- processing changes, it returns the event of ReconcileKind on the preprocessed request, and leaves in
  -- the cluster, if the attempts to update the status end without an error, the condition that
  -- ReconcileKind gave and the data that was listed.
  pub new_core_controller-lands :
      (ctx : Ctx) (key ns name : String) (s : Session C) (original old : ResolutionRequest)
      → split key ≡ ok (ns, name)
      → is_leader_for ns name ≡ true
      → lister ns name ≡ ok original
      → original.object_meta.deletion_timestamp ≡ none
      → a.stored original.object_meta.namespace original.object_meta.name s.cluster ≡ some old
      → (update_status k a lib original (processed k a lib now later original) s.cluster).0 ≡ none
      → lib.same_status original.status (processed k a lib now later original).status ≡ false
      → let of_kind = reconcile_request k now later (lib.pre_process original) in
        (x : CoreController C D) × (new : ResolutionRequest) × (new_core_controller k now later
            lister
          ≡ ok x)
        × ((reconcile k a lib patch split is_leader_for x.built.rec ctx key s).0
            ≡ as_event of_kind.0)
        × (a.stored original.object_meta.namespace original.object_meta.name
              (reconcile k a lib patch split is_leader_for x.built.rec ctx key s).1.cluster
            ≡ some new)
        × (get_condition k new.status ≡ get_condition k of_kind.1.status)
        × (new.status.fields ≡ original.status.fields)
  new_core_controller-lands ctx key ns name s original old keyed leads listed alive held ends
        differ =
      let (x, built, answers, cluster) = new_core_controller-visit ctx key s in
      let (new, event, at, condition, fields) =
        visit-lands k a lib split is_leader_for lister now later key ns name original old s.cluster
          keyed leads listed alive held ends differ in
      (
        x,
        new,
        built,
        answers ∙ ap as_event event,
        ap (λ c. a.stored original.object_meta.namespace original.object_meta.name c) cluster ∙ at,
        condition,
        fields,
      )

-- ===== src/Generated/Follower.antt =====
-- A replica that does not lead.
use resolution.Prelude.{
  String, ◌≡◌, refl, ap, ◌∙◌, sym, ◌⊎◌, arith, Bool, false, inl, inr, Bool-cases, Option, none,
  some, is_none, Option-cases, Result, ok, err, Result-cases, ok_injective, if◌then◌else◌,
}
use resolution.Common.Errors.{Error}
use resolution.Common.Context.{Ctx}
use resolution.Api.{ResolutionRequest}
use resolution.Cluster.{ApiServer, Json}
use resolution.Knative.Manager.{Manager}
use resolution.Knative.Outcome.{failed, permanent, requeue_after, skip_key}
use resolution.Visit.{Support}
use resolution.Generated.{
  Event, reconciler_event, wrapping, other, Session, DoReconcile, ReconcilerImpl, State,
  do_observe_kind, unknown, split_state, new_state, reconcile_method_for,
}
use resolution.Generated.Reconcile.{
  report, synchronize_status, run_target, observed, observe_deletion, configured, reconcile_state,
  started, reconcile,
}

report-cluster :
    {C : Type 0} (event : Option Event) (s : Session C) → (report event s).1.cluster ≡ s.cluster
unfolding report
report-cluster none s = refl
report-cluster (some (reconciler_event t r m)) s = refl
report-cluster (some (wrapping t r m e)) s = refl
report-cluster (some (other (failed e))) s = refl
report-cluster (some (other (permanent e))) s = refl
report-cluster (some (other (requeue_after d))) s = refl
report-cluster (some (other (skip_key key))) s = refl

module _ {C D : Type 0} (k : Manager) (a : ApiServer C) (lib : Support k C)
    (patch : String → String → Json → C → Result Error ResolutionRequest × C)
    (split : String → Result Error (String × String)) (is_leader_for : String → String → Bool)
    (r : ReconcilerImpl C D)
    (observes : (f : DoReconcile C) (ctx : Ctx) (rr : ResolutionRequest) (s : Session C)
      → r.reconciler.observe_kind ≡ some f
      → (f ctx rr s).1.cluster ≡ s.cluster)
    (watches : (f : Ctx → String → String → Session C → Option Event × Session C) (ctx : Ctx)
        (ns name : String) (s : Session C)
      → r.reconciler.observe_deletion ≡ some f
      → (f ctx ns name s).1.cluster ≡ s.cluster) where
  synchronized-cluster :
      (st : State) (original : ResolutionRequest) (event : Option Event)
      (resource : ResolutionRequest) (s : Session C)
      → st.is_leader ≡ false
      → (synchronize_status k a lib patch split is_leader_for r st original event resource
          s).1.cluster
        ≡ s.cluster
  unfolding synchronize_status
  synchronized-cluster st original event resource s follows = ground (arith, report-cluster event s)

  target-cases :
      (st : State) (original : ResolutionRequest)
      → st.is_leader ≡ false
      → (reconcile_method_for st r.reconciler original ≡ unknown)
        ⊎ ((f : DoReconcile C) × (r.reconciler.observe_kind ≡ some f)
            × (reconcile_method_for st r.reconciler original ≡ do_observe_kind f))
  unfolding reconcile_method_for
  target-cases st original follows =
      elim (Bool-cases (is_none original.object_meta.deletion_timestamp)) [
        | inr going ↦ inl (rw (going, follows) refl)
        | inl alive ↦ elim (Bool-cases st.is_roi) [
          | inr blind ↦ inl (rw (alive, follows, blind) refl)
          | inl observer ↦ elim (Option-cases r.reconciler.observe_kind) [
            | inl n ↦ inl (rw (alive, follows, observer, n) refl)
            | inr (f, e) ↦ inr (f, e, rw (alive, follows, observer, e) refl)
          ]
        ]
      ]

  observed-cluster :
      (st : State) (original : ResolutionRequest)
      (x : (Option Event × ResolutionRequest) × Session C)
      → st.is_leader ≡ false
      → (observed k a lib patch split is_leader_for r st original x).1.cluster ≡ x.1.cluster
  observed-cluster st original ((event, resource), s) follows =
      synchronized-cluster st original event resource s follows

  run-cluster :
      (st : State) (ctx : Ctx) (original : ResolutionRequest) (s : Session C)
      → st.is_leader ≡ false
      → (run_target k a lib patch split is_leader_for r
          (reconcile_method_for st r.reconciler original)
          st
          ctx
          original
          s).1.cluster
        ≡ s.cluster
  unfolding run_target
  run-cluster st ctx original s follows = elim (target-cases st original follows) [
    | inl e ↦
        ap (λ t. (run_target k a lib patch split is_leader_for r t st ctx original s).1.cluster) e
        ∙ synchronized-cluster st original none original s follows
    | inr (f, e, t) ↦
        ap (λ t. (run_target k a lib patch split is_leader_for r t st ctx original s).1.cluster) t
        ∙ observed-cluster st original (f ctx original s) follows
        ∙ observes f ctx original s e
  ]

  deleted-cluster :
      (ctx : Ctx) (st : State) (s : Session C)
      → (observe_deletion k a lib patch split is_leader_for r ctx st s).1.cluster ≡ s.cluster
  deleted-cluster ctx st s = elim (Option-cases r.reconciler.observe_deletion) [
    | inl n ↦ rw n refl
    | inr (f, e) ↦ rw e (watches f ctx st.namespace st.name s e)
  ]

  missed-cluster :
      (ctx : Ctx) (st : State) (s : Session C) (e : Error)
      → (if lib.is_not_found e
          then observe_deletion k a lib patch split is_leader_for r ctx st s
          else (some (other (failed e)), s)).1.cluster
        ≡ s.cluster
  missed-cluster ctx st s e = ground (arith, deleted-cluster ctx st s)

  state-cluster :
      (st : State) (ctx : Ctx) (s : Session C)
      → st.is_leader ≡ false
      → (reconcile_state k a lib patch split is_leader_for r st ctx s).1.cluster ≡ s.cluster
  unfolding reconcile_state
  state-cluster st ctx s follows = elim (Result-cases (r.lister st.namespace st.name)) [
    | inr (e, l) ↦ rw (reconcile_state, l) (missed-cluster ctx st s e)
    | inl (original, l) ↦ rw (reconcile_state, l) (run-cluster st ctx original s follows)
  ]

  started-cluster :
      (ctx : Ctx) (key : String) (s : Session C) (x : Result Error State)
      → ((st : State) → x ≡ ok st → st.is_leader ≡ false)
      → (started k a lib patch split is_leader_for r ctx key s x).1.cluster ≡ s.cluster
  started-cluster ctx key s (err e) follows = refl
  started-cluster ctx key s (ok st) follows = ground (
    arith,
    state-cluster st (configured k a lib patch split is_leader_for r ctx) s (follows st refl),
  )

  split-follows :
      (key : String) (st : State) (x : Result Error (String × String))
      → ((ns name : String) → is_leader_for ns name ≡ false)
      → split_state split is_leader_for key r.reconciler x ≡ ok st
      → st.is_leader ≡ false
  split-follows key st (err e) follows h = cc
  split-follows key st (ok (ns, name)) follows h =
      ap (λ q. q.is_leader) (sym (ok_injective h)) ∙ follows ns name

  -- A replica that leads for no request leaves the cluster as it was, if its implementation's
  -- ObserveKind and ObserveDeletion, where it has them, do.
  pub reconcile-follower :
      ((ns name : String) → is_leader_for ns name ≡ false)
      → (ctx : Ctx) (key : String) (s : Session C)
      → (reconcile k a lib patch split is_leader_for r ctx key s).1.cluster ≡ s.cluster
  unfolding reconcile new_state
  reconcile-follower follows ctx key s =
      started-cluster ctx key s (new_state split is_leader_for key r.reconciler)
        (λ st h. split-follows key st (split key) follows h)

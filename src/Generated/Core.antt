-- ===== src/Generated/Core.antt =====
-- The core controller's reconciler (pkg/reconciler/resolutionrequest) inside the generated one.
use resolution.Prelude.{
  ℕ, String, ◌≡◌, refl, sym, ◌∙◌, Bool, true, false, inl, inr, Bool-cases, Option, none, some,
  is_none, [], Result, ok, Result-cases, ok_injective, if◌then◌else◌,
}
use mathlib.Core.Path.{subst}
use resolution.Common.Errors.{Error}
use resolution.Common.Context.{Ctx}
use resolution.Api.{ResolutionRequest}
use resolution.Cluster.{ApiServer, Json}
use resolution.Core.{reconcile_request}
use resolution.Knative.Manager.{Manager}
use resolution.Knative.Outcome.{Outcome, failed, permanent, requeue_after, skip_key}
use resolution.Visit.{Support, update_status, reported, synchronize, processed, visit_listed, visit}
use resolution.Generated.{
  Event, other, Session, Interface, ReconcilerImpl, State, new_state, new_reconciler,
  default_finalizer_name, reconcile_method_for,
}
use resolution.Generated.Finalizers.{set_finalizer_if_finalizer}
use resolution.Generated.Reconcile.{
  report, after_update, synchronize_status, run_target, reconcile_state, started, reconcile,
}

abbrev pub as_event : Option Outcome → Option Event
as_event none = none
as_event (some o) = some (other o)

-- The methods of the core reconciler: ReconcileKind, with its two readings of the clock, and no other.
abbrev pub core : {C : Type 0} → Manager → ℕ → ℕ → Interface C
core k now later = record {
  reconcile_kind = λ ctx rr s.
      ((as_event (reconcile_request k now later rr).0, (reconcile_request k now later rr).1), s);
  finalize_kind = none;
  observe_kind = none;
  observe_deletion = none;
  is_leader_aware = false;
}

abbrev leading : String → String → String → State
leading key ns name = record {
  key = key;
  namespace = ns;
  name = name;
  is_roi = false;
  is_leader = true;
}

-- The same answer and the same cluster
pub record Agrees {C : Type 0} (x : Option Event × Session C) (y : Option Outcome × C)
    : Type 0 where
  pub answer : x.0 ≡ as_event y.0
  pub cluster : x.1.cluster ≡ y.1

report-Agrees :
    {C : Type 0} (event : Option Outcome) (s : Session C)
    → Agrees (report (as_event event) s) (event, s.cluster)
unfolding report
report-Agrees none s = record { answer = refl; cluster = refl }
report-Agrees (some (failed e)) s = record { answer = refl; cluster = refl }
report-Agrees (some (permanent e)) s = record { answer = refl; cluster = refl }
report-Agrees (some (requeue_after d)) s = record { answer = refl; cluster = refl }
report-Agrees (some (skip_key key)) s = record { answer = refl; cluster = refl }

module _ {C : Type 0} (D : Type 0) (k : Manager) (a : ApiServer C) (lib : Support k C)
    (patch : String → String → Json → C → Result Error ResolutionRequest × C)
    (split : String → Result Error (String × String)) (is_leader_for : String → String → Bool)
    (lister : String → String → Result Error ResolutionRequest) (now later : ℕ) where
  abbrev pub impl : ReconcilerImpl C D
  impl = record {
    demote_func = none;
    lister = lister;
    config_store = none;
    reconciler = core k now later;
    finalizer_name = default_finalizer_name;
    skip_status_updates = false;
  }

  updated-Agrees :
      (event : Option Outcome) (resource : ResolutionRequest) (s : Session C) (x : Option Error × C)
      → Agrees (after_update resource (as_event event) s x) (reported k a lib event x)
  updated-Agrees event resource s (none, c) = report-Agrees event (record s { cluster = c })
  updated-Agrees event resource s (some e, c) = record { answer = refl; cluster = refl }

  synchronized-Agrees :
      (key ns name : String) (event : Option Outcome) (original resource : ResolutionRequest)
      (s : Session C)
      → Agrees
          (synchronize_status k a lib patch split is_leader_for impl
            (leading key ns name)
            original
            (as_event event)
            resource
            s)
          (synchronize k a lib event original resource s.cluster)
  unfolding synchronize_status synchronize
  synchronized-Agrees key ns name event original resource s =
      elim (Bool-cases (lib.same_status original.status resource.status)) [
        | inl same ↦ rw same (report-Agrees event s)
        | inr differ ↦
            rw differ
              (updated-Agrees event resource s (update_status k a lib original resource s.cluster))
      ]

  listed-Agrees :
      (key ns name : String) (ctx : Ctx) (original : ResolutionRequest) (s : Session C)
      → Agrees
          (run_target k a lib patch split is_leader_for impl
            (reconcile_method_for (leading key ns name) (core k now later) original)
            (leading key ns name)
            ctx
            original
            s)
          (visit_listed k a lib now later original s.cluster)
  unfolding run_target reconcile_method_for visit_listed set_finalizer_if_finalizer
  listed-Agrees key ns name ctx original s =
      elim (Bool-cases (is_none original.object_meta.deletion_timestamp)) [
        | inl alive ↦ rw alive (
            synchronized-Agrees key ns name
              (reconcile_request k now later (lib.pre_process original)).0 original
              (processed k a lib now later original) s)
        | inr going ↦ rw going (synchronized-Agrees key ns name none original original s)
      ]

  missed-Agrees :
      (e : Error) (s : Session C)
      → Agrees
          (if lib.is_not_found e then (none, s) else (some (other (failed e)), s))
          (if lib.is_not_found e then (none, s.cluster) else (some (failed e), s.cluster))
  missed-Agrees e s = elim (Bool-cases (lib.is_not_found e)) [
    | inl n ↦ rw n (record { answer = refl; cluster = refl })
    | inr n ↦ rw n (record { answer = refl; cluster = refl })
  ]

  new_state-leading :
      (key ns name : String)
      → split key ≡ ok (ns, name)
      → is_leader_for ns name ≡ true
      → new_state split is_leader_for key (core {C = C} k now later) ≡ ok (leading key ns name)
  unfolding new_state
  new_state-leading key ns name h l = rw (new_state, h, l) refl

  leading-Agrees :
      (ctx : Ctx) (key ns name : String) (s : Session C)
      → split key ≡ ok (ns, name)
      → is_leader_for ns name ≡ true
      → Agrees
          (reconcile_state k a lib patch split is_leader_for impl (leading key ns name) ctx s)
          (visit k a lib split is_leader_for lister now later key s.cluster)
  unfolding reconcile_state visit
  leading-Agrees ctx key ns name s h l = elim (Result-cases (lister ns name)) [
    | inr (e, g) ↦ rw (visit, reconcile_state, h, l, g) ((missed-Agrees e s))
    | inl (original, g) ↦
        rw (visit, reconcile_state, h, l, g) (listed-Agrees key ns name ctx original s)
  ]

  pub impl-Agrees :
      (ctx : Ctx) (key : String) (s : Session C)
      → Agrees
          (reconcile k a lib patch split is_leader_for impl ctx key s)
          (visit k a lib split is_leader_for lister now later key s.cluster)
  unfolding reconcile visit new_state
  impl-Agrees ctx key s = elim (Result-cases (split key)) [
    | inr (e, h) ↦ rw (visit, new_state, h) (record { answer = refl; cluster = refl })
    | inl ((ns, name), h) ↦ elim (Bool-cases (is_leader_for ns name)) [
      | inr f ↦ rw (visit, new_state, h, f) (record { answer = refl; cluster = refl })
      | inl l ↦
          subst
            (λ st.
              Agrees (started k a lib patch split is_leader_for impl ctx key s st)
                (visit k a lib split is_leader_for lister now later key s.cluster))
            (sym (new_state-leading key ns name h l)) (leading-Agrees ctx key ns name s h l)
    ]
  ]

  built_impl : new_reconciler {D = D} lister (core {C = C} k now later) [] ≡ ok impl
  unfolding new_reconciler
  built_impl = refl

  -- The generated reconciler that is built, without options, around the core controller's methods
  -- answers what the visit of the core controller answers, and leaves the same cluster, whatever the
  -- queue, the leader election, the lister, the clock and the server do.
  reconcile-visit :
      (r : ReconcilerImpl C D)
      → new_reconciler lister (core k now later) [] ≡ ok r
      → (ctx : Ctx) (key : String) (s : Session C)
      → ((reconcile k a lib patch split is_leader_for r ctx key s).0
          ≡ as_event (visit k a lib split is_leader_for lister now later key s.cluster).0)
        × ((reconcile k a lib patch split is_leader_for r ctx key s).1.cluster
            ≡ (visit k a lib split is_leader_for lister now later key s.cluster).1)
  reconcile-visit r built ctx key s =
      let agrees =
        subst
          (λ q.
            Agrees (reconcile k a lib patch split is_leader_for q ctx key s)
              (visit k a lib split is_leader_for lister now later key s.cluster))
          (ok_injective (sym built_impl ∙ built)) (impl-Agrees ctx key s) in
      (agrees.answer, agrees.cluster)

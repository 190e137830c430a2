-- ===== src/Visit/Outdated.antt =====
-- A visit by the leader, from the queue to the cluster.
use mathlib.Core.Path.{subst}
use resolution.Prelude.{
  ℕ, ◌+◌, String, ◌≡◌, ◌≢◌, ◌≤◌, refl, sym, ap, ◌∙◌, inl, inr, Bool, true, false, Bool-cases,
  Option, none, some, [], Result, ok, arith,
}
use resolution.Common.{message_waiting_for_resolver, reason_resolution_in_progress}
use resolution.Common.Errors.{Error}
use resolution.Api.{condition_false, condition_unknown, ResolutionRequest}
use resolution.Api.Lifecycle.{get_condition}
use resolution.Api.Lifecycle.Marks.{is_done-unknown}
use resolution.Cluster.{ApiServer}
use resolution.Core.{reconcile_request}
use resolution.Core.Outcomes.{
  deadline, reconcile_request-SameButConditions, reconcile_request-early,
}
use resolution.Knative.Manager.{Manager, succeeded}
use resolution.Knative.Outcome.{Outcome}
use resolution.Visit.{Support, update_status, reported, synchronize, processed, visit_listed, visit}
use resolution.Visit.Writes.{update_status-lands}

module _ {C : Type 0} (k : Manager) (a : ApiServer C) (lib : Support k C) where
  pub reported-none :
      (event : Option Outcome) (x : Option Error × C)
      → x.0 ≡ none
      → reported k a lib event x ≡ (event, x.1)
  reported-none event (none, c) h = refl
  reported-none event (some e, c) h = cc

  pub kept_meta :
      (now later : ℕ) (original : ResolutionRequest)
      → (processed k a lib now later original).object_meta ≡ original.object_meta
  kept_meta now later original =
      (lib.post_process-kept _ original).object_meta
      ∙ (reconcile_request-SameButConditions k now later (lib.pre_process original)).object_meta
      ∙ (lib.pre_process-kept original).object_meta

  pub kept_fields :
      (now later : ℕ) (original : ResolutionRequest)
      → (processed k a lib now later original).status.fields ≡ original.status.fields
  kept_fields now later original =
      (lib.post_process-kept _ original).fields
      ∙ (reconcile_request-SameButConditions k now later (lib.pre_process original)).fields
      ∙ (lib.pre_process-kept original).fields

  -- The status is written if it was changed.
  visited :
      (now later : ℕ) (original : ResolutionRequest) (c : C)
      → original.object_meta.deletion_timestamp ≡ none
      → lib.same_status original.status (processed k a lib now later original).status ≡ false
      → (update_status k a lib original (processed k a lib now later original) c).0 ≡ none
      → visit_listed k a lib now later original c ≡ (
        (reconcile_request k now later (lib.pre_process original)).0,
        (update_status k a lib original (processed k a lib now later original) c).1,
      )
  unfolding visit_listed synchronize
  visited now later original c alive differ ends = ground (
    arith,
    reported-none (reconcile_request k now later (lib.pre_process original)).0
        (update_status k a lib original (processed k a lib now later original) c) ends,
  )

module _ {C : Type 0} (k : Manager) (a : ApiServer C) (lib : Support k C)
    (split : String → Result Error (String × String)) (is_leader_for : String → String → Bool)
    (lister : String → String → Result Error ResolutionRequest) (now later : ℕ)
    (key ns name : String) (original old : ResolutionRequest) (c : C)
    (keyed : split key ≡ ok (ns, name)) (leads : is_leader_for ns name ≡ true)
    (listed : lister ns name ≡ ok original) (alive : original.object_meta.deletion_timestamp ≡ none)
    (held : a.stored original.object_meta.namespace original.object_meta.name c ≡ some old)
    (ends : (update_status k a lib original (processed k a lib now later original) c).0
      ≡ none) where
  visit-listed :
      visit k a lib split is_leader_for lister now later key c
      ≡ visit_listed k a lib now later original c
  unfolding visit
  visit-listed = ground arith

  -- A visit by the leader to a listed request that is not being deleted, and whose status it changes,
  -- leaves in the cluster, if one of the attempts to update it ends without an error, the condition that
  -- ReconcileKind gave to the preprocessed copy, and the data that was listed, whatever data the
  -- cluster had by then. The event is that of ReconcileKind.
  pub visit-lands :
      lib.same_status original.status (processed k a lib now later original).status ≡ false
      → (new : ResolutionRequest) × ((visit k a lib split is_leader_for lister now later key c).0
          ≡ (reconcile_request k now later (lib.pre_process original)).0)
        × (a.stored original.object_meta.namespace original.object_meta.name
              (visit k a lib split is_leader_for lister now later key c).1
            ≡ some new)
        × (get_condition k new.status
            ≡ get_condition k (reconcile_request k now later (lib.pre_process original)).1.status)
        × (new.status.fields ≡ original.status.fields)
  visit-lands differ =
      let e = visit-listed ∙ visited k a lib now later original c alive differ ends in
      let (new, at, condition, fields) =
        update_status-lands k a lib original (processed k a lib now later original)
          (kept_meta k a lib now later original) c ((old, held), differ) ends in
      (
        new,
        ap (λ x. x.0) e,
        ap (λ x. a.stored original.object_meta.namespace original.object_meta.name x.1) e ∙ at,
        condition ∙ lib.post_process-condition _ original,
        fields ∙ kept_fields k a lib now later original,
      )

  -- A listed request without data that is not being deleted, and that its resolver failed before the core
  -- controller had observed its generation: a visit of the leader by its deadline, if the attempts to
  -- update it end without an error, puts it back in progress.
  pub visit-forgets :
      (reason message : String)
      → get_condition k original.status ≡ some (succeeded condition_false reason message)
      → original.status.duck.observed_generation ≢ original.object_meta.generation
      → original.status.fields.payload ≡ []
      → now ≤ deadline original
      → (new : ResolutionRequest) × (a.stored original.object_meta.namespace
            original.object_meta.name
            (visit k a lib split is_leader_for lister now later key c).1
          ≡ some new)
        × (get_condition k new.status
            ≡ some (
                succeeded condition_unknown reason_resolution_in_progress
                  message_waiting_for_resolver))
  visit-forgets reason message was outdated empty early =
      let reset =
        is_done-unknown k (lib.pre_process original) _ _
          (lib.pre_process-outdated original outdated) in
      let kept = lib.pre_process-kept original in
      let waits =
        (reconcile_request-early k now later (lib.pre_process original) reset
          (ap (λ f. f.payload) kept.fields ∙ empty)
          (subst (λ m. now ≤ m.creation_timestamp + 60_000_000_000) (sym kept.object_meta)
            early)).1 in
      let (new, _, at, condition, _) =
        visit-lands (differs (lib.post_process-condition _ original ∙ waits)) in
      (new, at, condition ∙ waits)
    where
      differs :
          get_condition k (processed k a lib now later original).status
            ≡ some (
                succeeded condition_unknown reason_resolution_in_progress
                  message_waiting_for_resolver)
          → lib.same_status original.status (processed k a lib now later original).status ≡ false
      differs h =
          elim (Bool-cases
            (lib.same_status original.status (processed k a lib now later original).status)) [
              | inr e ↦ e
              | inl e ↦
                  let clash : some (succeeded condition_false reason message)
                      ≡ some (
                          succeeded condition_unknown reason_resolution_in_progress
                            message_waiting_for_resolver) =
                    sym was ∙ lib.same_status-condition _ _ e ∙ h in
                  cc
            ]

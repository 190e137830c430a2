-- ===== src/Visit/Incomplete.antt =====
-- The core controller completes no request without data.
use native.Mathlib.Decide.{dec_lt, ℕ_discrete}
use resolution.Prelude.{
  ℕ, String, ◌≡◌, sym, ap, ◌∙◌, inl, inr, false, some, Option-cases, [], Bool-cases, arith,
}
use resolution.Api.{condition_unknown, condition_false, ResolutionRequest}
use resolution.Api.Lifecycle.{get_condition, is_done}
use resolution.Cluster.{ApiServer}
use resolution.Core.{reconcile_request}
use resolution.Core.Outcomes.{
  deadline, reconcile_request-done, reconcile_request-late, reconcile_request-early,
}
use resolution.Knative.Manager.{Manager, succeeded, or_unknown}
use resolution.Visit.{Support, processed}

module _ (k : Manager) where
  -- The request is not completed: its condition is not true.
  abbrev IsIncomplete : ResolutionRequest → Type 0
  IsIncomplete rr = k.is_true (get_condition k rr.status) ≡ false

  unknown-IsIncomplete :
      (rr : ResolutionRequest) (reason message : String)
      → get_condition k rr.status ≡ some (succeeded condition_unknown reason message)
      → IsIncomplete rr
  unknown-IsIncomplete rr reason message h = rw h (k.is_true-some _)

  false-IsIncomplete :
      (rr : ResolutionRequest) (reason message : String)
      → get_condition k rr.status ≡ some (succeeded condition_false reason message)
      → IsIncomplete rr
  false-IsIncomplete rr reason message h = rw h (k.is_true-some _)

  reconcile-IsIncomplete :
      (now later : ℕ) (rr : ResolutionRequest)
      → rr.status.fields.payload ≡ []
      → IsIncomplete rr
      → IsIncomplete (reconcile_request k now later rr).1
  reconcile-IsIncomplete now later rr e h = elim (Bool-cases (is_done k rr)) [
    | inl d ↦ rw (reconcile_request-done k now later rr d) h
    | inr o ↦ elim (dec_lt (deadline rr) now) [
      | yes late ↦
          false-IsIncomplete (reconcile_request k now later rr).1 _ _
            (reconcile_request-late k now later rr o e late).1
      | no early ↦
          unknown-IsIncomplete (reconcile_request k now later rr).1 _ _
            (reconcile_request-early k now later rr o e (omega arith)).1
    ]
  ]

module _ {C : Type 0} (k : Manager) (a : ApiServer C) (lib : Support k C) where
  pre_process-IsIncomplete :
      (s : ResolutionRequest) → IsIncomplete k s → IsIncomplete k (lib.pre_process s)
  pre_process-IsIncomplete s h =
      elim (ℕ_discrete s.status.duck.observed_generation s.object_meta.generation) [
        | no n ↦ unknown-IsIncomplete k (lib.pre_process s) _ _ (lib.pre_process-outdated s n)
        | yes e ↦ elim (Option-cases (get_condition k s.status)) [
          | inl n ↦
              unknown-IsIncomplete k (lib.pre_process s) _ _
                (lib.pre_process-current s e ∙ ap (λ o. some (or_unknown o)) n)
          | inr (c, j) ↦
              ap k.is_true (lib.pre_process-current s e ∙ ap (λ o. some (or_unknown o)) j ∙ sym j)
              ∙ h
        ]
      ]

  -- Neither does its whole visit.
  pub processed-IsIncomplete :
      (now later : ℕ) (s : ResolutionRequest)
      → s.status.fields.payload ≡ []
      → IsIncomplete k s
      → IsIncomplete k (processed k a lib now later s)
  processed-IsIncomplete now later s e h =
      ap k.is_true (lib.post_process-condition _ s)
      ∙ reconcile-IsIncomplete k now later (lib.pre_process s)
          (ap (λ f. f.payload) (lib.pre_process-kept s).fields ∙ e) (pre_process-IsIncomplete s h)

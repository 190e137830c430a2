-- ===== src/System/Protocol/Refines/Visits.antt =====
-- The core controller, whose updates are retried.
use mathlib.Core.List.{Memᴰ, List}
use mathlib.Core.Path.{subst}
use resolution.Prelude.{
  ℕ, zero, suc, String, ◌≡◌, sym, ap, ◌∙◌, refl, true, false, none, some, is_none, ◌⊎◌, inl, inr,
  Option, Result, ok, err, Bool, Result-cases, Bool-cases,
}
use resolution.Common.Errors.{Error}
use resolution.Api.{ResolutionRequest}
use resolution.Cluster.{ApiServer}
use resolution.Knative.Manager.{Manager}
use resolution.Knative.Outcome.{Outcome}
use resolution.System.Protocol.{Rules, core_copy, complete, redo, Steps, stay, Steps-trans}
use resolution.System.Protocol.Refines.{view, Knows, Unretried}
use resolution.System.Protocol.Refines.Server.{update-Steps}
use resolution.Visit.{
  Attempts, last, again, Support, error_only, write_status, attempt, update_status, reported,
  synchronize, visit_listed, visit,
}
use resolution.Visit.Local.{visit-cases}
use resolution.Visit.Outdated.{kept_meta}

module _ {C : Type 0} (k : Manager) (a : ApiServer C) (lib : Support k C) where
  error_only_state : (x : Result Error ResolutionRequest × C) → (error_only k a lib x).1 ≡ x.1
  error_only_state (ok u, c) = refl
  error_only_state (err e, c) = refl

  reported_state :
      (event : Option Outcome) (x : Option Error × C) → (reported k a lib event x).1 ≡ x.1
  reported_state event (none, c) = refl
  reported_state event (some e, c) = refl

  -- The cluster after a write of a status, and after a synchronization, is that before or that after
  -- the update.
  write_status-cases :
      (P : C → Type 0) (existing desired : ResolutionRequest) (c : C)
      → P c
      → P
          (a.update_status existing.object_meta.namespace
            (record existing { status = desired.status })
            c).1
      → P (write_status k a lib existing desired c).1
  unfolding write_status
  write_status-cases P existing desired c here there =
      elim (Bool-cases (lib.same_status existing.status desired.status)) [
        | inl same ↦ rw same here
        | inr differ ↦ rw differ (subst P (sym (error_only_state _)) there)
      ]

  -- An attempt after the first
  attempt-cases :
      (P : C → Type 0) (original desired : ResolutionRequest) (i : ℕ) (c : C)
      → P c
      → ((latest : ResolutionRequest)
          → a.get desired.object_meta.namespace desired.object_meta.name c ≡ ok latest
          → P (write_status k a lib latest desired c).1)
      → P (attempt k a lib original desired (suc i) c).1
  unfolding attempt
  attempt-cases P original desired i c here there =
      elim (Result-cases (a.get desired.object_meta.namespace desired.object_meta.name c)) [
        | inr (e, g) ↦ rw (attempt, g) here
        | inl (latest, g) ↦ rw (attempt, g) (there latest g)
      ]

  synchronize-cases :
      (P : C → Type 0) (event : Option Outcome) (original resource : ResolutionRequest) (c : C)
      → P c
      → P (update_status k a lib original resource c).1
      → P (synchronize k a lib event original resource c).1
  unfolding synchronize
  synchronize-cases P event original resource c here there =
      elim (Bool-cases (lib.same_status original.status resource.status)) [
        | inl same ↦ rw same here
        | inr differ ↦ rw differ (subst P (sym (reported_state event _)) there)
      ]

  -- A copy that is as it was is not written.
  synchronize_refl :
      (event : Option Outcome) (original : ResolutionRequest) (c : C)
      → (synchronize k a lib event original original c).1 ≡ c
  unfolding synchronize
  synchronize_refl event original c = rw (lib.same_status_refl original.status) refl

module _ {C : Type 0} (rules : Rules C) (ns name : String) (seen : List ResolutionRequest)
    (original : ResolutionRequest) (now later : ℕ)
    (read : ns ≡ original.object_meta.namespace
      → name ≡ original.object_meta.name
      → Memᴰ original seen) where
  abbrev Runs : C → C → Type 0
  Runs c c' = Steps rules (view rules ns name seen c) (view rules ns name seen c')

  -- Each attempt to update the status
  attempt-Runs :
      (i : ℕ) (c : C)
      → (i ≡ 0) ⊎ (rules.retries ≡ true)
      → Runs c
          (attempt rules.manager rules.server rules.support original
            (core_copy rules now later original)
            i
            c).1
  unfolding attempt
  attempt-Runs zero c _ =
      write_status-cases rules.manager rules.server rules.support (Runs c) original
        (core_copy rules now later original) c (stay (view rules ns name seen c))
        (update-Steps rules ns name seen c original.object_meta.namespace
          (record original { status = (core_copy rules now later original).status })
          (λ old en em at ver. complete original now later (read en em) (sym ver)))
  attempt-Runs (suc i) c (inl e) = cc
  attempt-Runs (suc i) c (inr retried) =
      attempt-cases rules.manager rules.server rules.support (Runs c) original
        (core_copy rules now later original) i c (stay (view rules ns name seen c))
        (λ latest g.
          let names = rules.server.stored_name _ _ c latest (rules.server.get-ok _ _ c latest g) in
          let meta = kept_meta rules.manager rules.server rules.support now later original in
          write_status-cases rules.manager rules.server rules.support (Runs c) latest
            (core_copy rules now later original) c (stay (view rules ns name seen c))
            (update-Steps rules ns name seen c latest.object_meta.namespace
              (record latest { status = (core_copy rules now later original).status })
              (λ old en em at ver. redo original now later retried (
                read (en ∙ names.0 ∙ ap (λ m. m.namespace) meta)
                  (em ∙ names.1 ∙ ap (λ m. m.name) meta)))))

  tried-Runs :
      (f : ℕ → C → Option Error × C)
      → ((i : ℕ) (c : C) → Runs c (f i c).1)
      → (i : ℕ) (c : C) (r : Option Error × C) → Attempts f i c r
      → Runs c r.1
  tried-Runs f each _ _ _ (last i c) = each i c
  tried-Runs f each _ _ _ (again i c e r h rest) =
      Steps-trans rules _ _ _ (each i c) (tried-Runs f each (suc i) (f i c).1 r rest)

  abbrev tries : ℕ → C → Option Error × C
  tries =
      attempt rules.manager rules.server rules.support original (core_copy rules now later original)

  -- What a run without retries says of the update
  abbrev Keeps : C → Type 0
  Keeps c = rules.retries ≡ false → rules.support.retry_update_conflicts tries c ≡ tries 0 c

  update-Runs :
      (c : C)
      → Keeps c
      → Runs c
          (update_status rules.manager rules.server rules.support original
            (core_copy rules now later original)
            c).1
  unfolding update_status
  update-Runs c keeps = elim (Bool-cases rules.retries) [
    | inl retried ↦
        tried-Runs tries (λ i c'. attempt-Runs i c' (inr retried)) 0 c _
          (rules.support.retry-Attempts tries c)
    | inr never ↦ subst (λ r. Runs c r.1) (sym (keeps never)) (attempt-Runs 0 c (inl refl))
  ]

  visit_listed-Runs :
      (c : C)
      → Keeps c
      → Runs c (visit_listed rules.manager rules.server rules.support now later original c).1
  unfolding visit_listed
  visit_listed-Runs c keeps = elim (Bool-cases (is_none original.object_meta.deletion_timestamp)) [
    | inl alive ↦ rw alive (
        synchronize-cases rules.manager rules.server rules.support (Runs c) _ original
          (core_copy rules now later original) c (stay (view rules ns name seen c))
          (update-Runs c keeps))
    | inr going ↦ rw going (
        subst (λ c'. Runs c c')
          (sym (synchronize_refl rules.manager rules.server rules.support none original c))
          (stay (view rules ns name seen c)))
  ]

module _ {C : Type 0} (rules : Rules C) (ns name : String) (seen : List ResolutionRequest) where
  -- Reconcile of the generated reconciler
  pub visit-Steps :
      (c : C) (split : String → Result Error (String × String))
      (is_leader_for : String → String → Bool)
      (lister : String → String → Result Error ResolutionRequest) (now later : ℕ) (key : String)
      → Knows rules ns name seen lister
      → (rules.retries ≡ false → Unretried rules ns name lister now later c)
      → Steps rules (view rules ns name seen c) (
          view rules ns name seen
            (visit rules.manager rules.server rules.support split is_leader_for lister now later key
              c).1)
  visit-Steps c split is_leader_for lister now later key knows keeps =
      elim (visit-cases rules.manager rules.server rules.support split is_leader_for lister now
        later key c) [
          | inl e ↦
              subst (λ c'. Steps rules (view rules ns name seen c) (view rules ns name seen c'))
                (sym e) (stay (view rules ns name seen c))
          | inr (at_ns, at_name, original, l, e) ↦
              subst (λ c'. Steps rules (view rules ns name seen c) (view rules ns name seen c'))
                (sym e)
                (visit_listed-Runs rules ns name seen original now later
                  (knows at_ns at_name original l) c
                  (λ never. keeps never at_ns at_name original l))
        ]

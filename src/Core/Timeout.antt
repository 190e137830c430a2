-- ===== src/Core/Timeout.antt =====
-- Every request ends: repeated reconciliation, and the requeue that brings it about.
use resolution.Prelude.{
  ℕ, ◌+◌, ◌<◌, ◌^◌, ◌≡◌, ◌⊎◌, inl, inr, true, Bool-cases, some, List, [], ◌∷◌, refl, ap, ◌∙◌,
}
use mathlib.Core.Path.{subst}
use resolution.Prelude.Int.{ℤ, pos, ◌+ℤ◌, ◌≤ℤ◌, int_laws}
use resolution.Api.{Bytes, ResolutionRequest}
use resolution.Api.Lifecycle.{is_done}
use resolution.Api.Lifecycle.Marks.{is_done-true, is_done-false}
use resolution.Knative.Manager.{Manager}
use resolution.Knative.Outcome.{requeue_after}
use resolution.Core.{reconcile_request}
use resolution.Core.Outcomes.{
  deadline-reconcile, requeue_delay, deadline, reconcile_request-done, reconcile_request-data,
  reconcile_request-late, delay_exact,
}

payload_cases : (b : Bytes) → (b ≡ []) ⊎ (b ≡ [] → ⊥)
payload_cases [] = inl refl
payload_cases (x ∷ b) = inr (λ e. cc)

past :
    (limit end later now : ℕ) (d : ℤ)
    → end ≡ limit
    → pos later +ℤ d ≡ pos limit
    → pos later +ℤ d +ℤ pos 1 ≤ℤ pos now
    → end < now
past limit end later now d same exact h =
    let h' : pos limit +ℤ pos 1 ≤ℤ pos now = subst (λ z. z +ℤ pos 1 ≤ℤ pos now) exact h in
    omega (int_laws, same)

module _ (k : Manager) where
  -- One reconciliation after the deadline is enough, whatever the request holds.
  pub late-is_done :
      (now later : ℕ) (rr : ResolutionRequest)
      → deadline rr < now
      → is_done k (reconcile_request k now later rr).1 ≡ true
  late-is_done now later rr l = elim (Bool-cases (is_done k rr)) [
    | inl d ↦ rw (reconcile_request-done k now later rr d) d
    | inr o ↦ elim (payload_cases rr.status.fields.payload) [
      | inl e ↦ is_done-false k _ _ _ (reconcile_request-late k now later rr o e l).1
      | inr n ↦ is_done-true k _ _ _ (reconcile_request-data k now later rr o n).1
    ]
  ]

  -- A request that was requeued is done by the first reconciliation that comes later than asked.
  pub requeue-is_done :
      (now later now' later' : ℕ) (rr : ResolutionRequest) (d : ℤ)
      → later < rr.object_meta.creation_timestamp + 2 ^ 61
      → rr.object_meta.creation_timestamp < later + 2 ^ 61
      → (reconcile_request k now later rr).0 ≡ some (requeue_after d)
      → pos later +ℤ d +ℤ pos 1 ≤ℤ pos now'
      → is_done k (reconcile_request k now' later' (reconcile_request k now later rr).1).1 ≡ true
  requeue-is_done now later now' later' rr d r1 r2 q w = late-is_done now' later' _ (
      past (deadline rr) _ later now' d (deadline-reconcile k later rr now)
        (ap (λ x. pos later +ℤ x) (requeue_delay k later rr now d q) ∙ delay_exact later rr r1 r2)
        w)

  -- The reconciler's visits to one request, each with its two readings of the clock.
  pub visits : List (ℕ × ℕ) → ResolutionRequest → ResolutionRequest
  visits [] rr = rr
  visits ((now, later) ∷ ts) rr = visits ts (reconcile_request k now later rr).1

  -- One of the visits comes after a given instant.
  abbrev SomeAfter : ℕ → List (ℕ × ℕ) → Type 0
  SomeAfter t [] = ⊥
  SomeAfter t ((now, later) ∷ ts) = (t < now) ⊎ SomeAfter t ts

  -- A request that is done stays exactly as it is, however often it is visited.
  pub visits-done :
      (ts : List (ℕ × ℕ)) (rr : ResolutionRequest) → is_done k rr ≡ true → visits ts rr ≡ rr
  unfolding visits
  visits-done [] rr d = refl
  visits-done ((now, later) ∷ ts) rr d =
      rw (ap (λ r. r.1) (reconcile_request-done k now later rr d)) (visits-done ts rr d)

  -- A request is done after any visits of which one comes after its deadline.
  pub visits-is_done :
      (ts : List (ℕ × ℕ)) (rr : ResolutionRequest)
      → SomeAfter (deadline rr) ts
      → is_done k (visits ts rr) ≡ true
  unfolding visits
  visits-is_done [] rr h = absurd h
  visits-is_done ((now, later) ∷ ts) rr (inl l) =
      let d = late-is_done now later rr l in rw (visits-done ts _ d) d
  visits-is_done ((now, later) ∷ ts) rr (inr h) =
      visits-is_done ts _ (rw (deadline-reconcile k later rr now) h)

-- ===== src/Visit/Fresh.antt =====
-- A visit by the leader with a copy of the request that is the stored one, where no update is retried.
use mathlib.Core.Path.{subst}
use resolution.Prelude.{
  ℕ, String, ◌≡◌, refl, sym, ap, ◌∙◌, inl, inr, Bool, true, Bool-cases, Option, none, some, is_none,
  Result, ok,
}
use resolution.Common.Errors.{Error}
use resolution.Api.{ResolutionRequest}
use resolution.Api.Lifecycle.{get_condition}
use resolution.Cluster.{ApiServer, with_status}
use resolution.Core.{reconcile_request}
use resolution.Knative.Manager.{Manager}
use resolution.Knative.Outcome.{Outcome}
use resolution.Visit.{
  Support, error_only, write_status, attempt, update_status, synchronize, processed, visit_listed,
  visit,
}
use resolution.Visit.Outdated.{kept_meta, reported-none}
use resolution.Visit.Writes.{error_only-ok}

module _ {C : Type 0} (k : Manager) (a : ApiServer C) (lib : Support k C) (now later : ℕ)
    (original : ResolutionRequest) (c : C)
    (held : a.stored original.object_meta.namespace original.object_meta.name c ≡ some original)
    (alive : original.object_meta.deletion_timestamp ≡ none) where
  abbrev desired : ResolutionRequest
  desired = processed k a lib now later original

  -- What the visit has stored: a request of the same generation, with the condition and the observed
  -- generation of the processed copy.
  pub record Settled (c' : C) : Type 0 where
    pub new : ResolutionRequest
    pub at : a.stored original.object_meta.namespace original.object_meta.name c' ≡ some new
    pub condition : get_condition k new.status ≡ get_condition k desired.status
    pub observed : new.status.duck.observed_generation ≡ desired.status.duck.observed_generation
    pub generation : new.object_meta.generation ≡ original.object_meta.generation

  unchanged : lib.same_status original.status desired.status ≡ true → Settled c
  unchanged same = record {
    new = original;
    at = held;
    condition = lib.same_status-condition _ _ same;
    observed = lib.same_status-observed _ _ same;
    generation = refl;
  }

  abbrev sent : Option Error × C
  sent = error_only k a lib (
      a.update_status original.object_meta.namespace (record original { status = desired.status })
        c)

  written : sent.0 ≡ none → Settled sent.1
  written h =
      let (u, accepted, left) =
        error_only-ok k a lib original desired (kept_meta k a lib now later original) _ h in
      let (v, at) =
        a.update_status-ok _ (record original { status = desired.status }) u original c held
          accepted in
      subst Settled (sym left) (record {
        new = with_status original desired.status v;
        at = at;
        condition = refl;
        observed = refl;
        generation = refl;
      })

  -- One attempt
  first :
      (write_status k a lib original desired c).0 ≡ none
      → Settled (write_status k a lib original desired c).1
  unfolding write_status
  first = elim (Bool-cases (lib.same_status original.status desired.status)) [
    | inl same ↦ rw same (λ h. unchanged same)
    | inr differ ↦ rw differ written
  ]

  -- The first attempt is not followed by another.
  abbrev Unretried : Type 0
  Unretried =
      lib.retry_update_conflicts (attempt k a lib original desired) c
      ≡ attempt k a lib original desired 0 c

  tried :
      Unretried
      → (update_status k a lib original desired c).0 ≡ none
      → Settled (update_status k a lib original desired c).1
  unfolding update_status attempt
  tried unretried h =
      subst (λ x. Settled x.1) (sym unretried) (first (ap (λ x. x.0) (sym unretried) ∙ h))

  synchronized :
      (event : Option Outcome)
      → Unretried
      → (update_status k a lib original desired c).0 ≡ none
      → Settled (synchronize k a lib event original desired c).1
  unfolding synchronize
  synchronized event unretried h =
      elim (Bool-cases (lib.same_status original.status desired.status)) [
        | inl same ↦ rw same (unchanged same)
        | inr differ ↦
            rw differ
              (subst (λ x. Settled x.1) (sym (reported-none k a lib event _ h)) (tried unretried h))
      ]

  listed-settles :
      Unretried
      → (update_status k a lib original desired c).0 ≡ none
      → Settled (visit_listed k a lib now later original c).1
  unfolding visit_listed
  listed-settles unretried h =
      let there : is_none original.object_meta.deletion_timestamp ≡ true = ap is_none alive in
      rw there
        (synchronized (reconcile_request k now later (lib.pre_process original)).0 unretried h)

  -- A visit that is the key's leader's, and whose update ends with its first attempt and without an error
  pub visit-settles :
      (split : String → Result Error (String × String)) (is_leader_for : String → String → Bool)
      (lister : String → String → Result Error ResolutionRequest) (key ns name : String)
      → split key ≡ ok (ns, name)
      → is_leader_for ns name ≡ true
      → lister ns name ≡ ok original
      → Unretried
      → (update_status k a lib original desired c).0 ≡ none
      → Settled (visit k a lib split is_leader_for lister now later key c).1
  unfolding visit
  visit-settles split is_leader_for lister key ns name keyed leads listed unretried h =
      rw (keyed, visit) (rw leads (rw listed (listed-settles unretried h)))

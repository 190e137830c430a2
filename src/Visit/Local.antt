-- ===== src/Visit/Local.antt =====
-- Which visits touch the cluster.
use resolution.Prelude.{
  ℕ, String, ◌≡◌, ◌≢◌, ◌⊎◌, inl, inr, Bool, true, false, Bool-cases, Result, ok, err, Result-cases,
  arith,
}
use resolution.Common.Errors.{Error}
use resolution.Api.{ResolutionRequest}
use resolution.Cluster.{ApiServer}
use resolution.Knative.Manager.{Manager}
use resolution.Visit.{Support, visit_listed, visit}

module _ {C : Type 0} (k : Manager) (a : ApiServer C) (lib : Support k C)
    (split : String → Result Error (String × String)) (is_leader_for : String → String → Bool)
    (lister : String → String → Result Error ResolutionRequest) (now later : ℕ) (key : String)
    (c : C) where
  visit-bad_key :
      (e : Error)
      → split key ≡ err e
      → (visit k a lib split is_leader_for lister now later key c).1 ≡ c
  unfolding visit
  visit-bad_key e h = ground arith

  visit-follower :
      (ns name : String)
      → split key ≡ ok (ns, name)
      → is_leader_for ns name ≡ false
      → (visit k a lib split is_leader_for lister now later key c).1 ≡ c
  unfolding visit
  visit-follower ns name h l = ground arith

  visit-unlisted :
      (ns name : String) (e : Error)
      → split key ≡ ok (ns, name)
      → lister ns name ≡ err e
      → (visit k a lib split is_leader_for lister now later key c).1 ≡ c
  unfolding visit
  visit-unlisted ns name e h l = ground arith

  visit-listed :
      (ns name : String) (original : ResolutionRequest)
      → split key ≡ ok (ns, name)
      → is_leader_for ns name ≡ true
      → lister ns name ≡ ok original
      → (visit k a lib split is_leader_for lister now later key c).1
        ≡ (visit_listed k a lib now later original c).1
  unfolding visit
  visit-listed ns name original h l g = ground arith

  -- A visit leaves the cluster alone, or it is one to a listed request.
  pub visit-cases :
      ((visit k a lib split is_leader_for lister now later key c).1 ≡ c)
      ⊎ ((ns : String) × (name : String) × (original : ResolutionRequest) × (lister ns name
            ≡ ok original)
          × ((visit k a lib split is_leader_for lister now later key c).1
              ≡ (visit_listed k a lib now later original c).1))
  visit-cases = elim (Result-cases (split key)) [
    | inr (e, h) ↦ inl (visit-bad_key e h)
    | inl ((ns, name), h) ↦ elim (Bool-cases (is_leader_for ns name)) [
      | inr f ↦ inl (visit-follower ns name h f)
      | inl l ↦ elim (Result-cases (lister ns name)) [
        | inr (e, g) ↦ inl (visit-unlisted ns name e h g)
        | inl (original, g) ↦ inr (ns, name, original, g, visit-listed ns name original h l g)
      ]
    ]
  ]

  -- A visit that changes the cluster is one by the leader for the key, to a request that is listed.
  visit_writes :
      (visit k a lib split is_leader_for lister now later key c).1 ≢ c
      → (ns : String) × (name : String) × (original : ResolutionRequest) × (split key
          ≡ ok (ns, name))
        × (is_leader_for ns name ≡ true)
        × (lister ns name ≡ ok original)
  visit_writes w = elim (Result-cases (split key)) [
    | inr (e, h) ↦ absurd (w (visit-bad_key e h))
    | inl ((ns, name), h) ↦ elim (Bool-cases (is_leader_for ns name)) [
      | inr f ↦ absurd (w (visit-follower ns name h f))
      | inl l ↦ elim (Result-cases (lister ns name)) [
        | inr (e, g) ↦ absurd (w (visit-unlisted ns name e h g))
        | inl (original, g) ↦ (ns, name, original, h, l, g)
      ]
    ]
  ]

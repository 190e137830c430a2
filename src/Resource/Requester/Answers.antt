-- ===== src/Resource/Requester/Answers.antt =====
-- What a client of the requester sees.
use mathlib.Core.Path.{subst₂}
use resolution.Prelude.{
  String, ◌≡◌, refl, sym, ap, ◌∙◌, true, Option, none, some, [], ◌∷◌, inl, inr, Option-cases,
  eq_refl, Result, ok, err, arith,
}
use resolution.Common.{label_key_resolver_type, reason_resolution_failed}
use resolution.Common.Errors.{Error, plain, new_error, error_request_in_progress}
use resolution.Api.{
  Condition, condition_true, condition_false, condition_unknown, ResolutionRequest,
}
use resolution.Api.Lifecycle.{get_condition}
use resolution.Cluster.{ApiServer, with_status, born}
use resolution.Knative.Manager.{Manager}
use resolution.Resource.{Request}
use resolution.Resource.Requester.{ReadOnly, answer, submit, submitted, created}
use resolution.Framework.Setup.{filter_by_selector}

-- What the state of a request means to its client.
abbrev pub reading : ResolutionRequest → Option Condition → Result Error ReadOnly
reading rr none = err error_request_in_progress
reading rr (some c) = elim c.status [
  | condition_unknown ↦ err error_request_in_progress
  | condition_true ↦ ok (record { req = rr })
  | condition_false ↦ err (new_error reason_resolution_failed (plain c.message))
]

answer-reading :
    (k : Manager) (rr : ResolutionRequest) → answer k rr ≡ reading rr (get_condition k rr.status)
unfolding answer
answer-reading k rr = elim (Option-cases (get_condition k rr.status)) [
  | inl e ↦ rw e (ground (arith, k.is_unknown-none))
  | inr (c, e) ↦ rw e (ground (arith, k.is_unknown-some c, k.is_true-some c, k.get_message-some c))
]

-- A resource is answered for a request that is true, and is that request.
reading-ok :
    (k : Manager) (rr : ResolutionRequest) (ro : ReadOnly) (o : Option Condition)
    → reading rr o ≡ ok ro
    → (k.is_true o ≡ true) × (ro ≡ record { req = rr })
reading-ok k rr ro none h = cc
reading-ok k rr ro (some c) h = ground (arith, k.is_true-some c)

-- What a new request carries, whether or not it has an owner.
submitted_fields :
    (resolver : String) (req : Request)
    → let rr = submitted resolver req in
      (rr.object_meta.name ≡ req.name)
      × (rr.object_meta.namespace ≡ req.namespace)
      × (rr.object_meta.labels ≡ some ((label_key_resolver_type, resolver) ∷ []))
      × (rr.spec.parameters ≡ req.params)
      × (rr.status.duck.conditions ≡ [])
unfolding submitted
submitted_fields resolver req = ground arith

created-ok :
    {C : Type 0} (k : Manager) (a : ApiServer C) (u : ResolutionRequest)
    (x : Result Error ResolutionRequest × C)
    → x.0 ≡ ok u
    → created k a x ≡ (err error_request_in_progress, x.1)
created-ok k a u (ok u', c) h = refl
created-ok k a u (err e, c) h = cc

selects_label :
    (resolver : String) (rr : ResolutionRequest)
    → rr.object_meta.labels ≡ some ((label_key_resolver_type, resolver) ∷ [])
    → filter_by_selector (some ((label_key_resolver_type, resolver) ∷ [])) (some rr) ≡ true
unfolding filter_by_selector
selects_label resolver rr h = rw h (ground (arith, eq_refl resolver))

module _ {C : Type 0} (k : Manager) (a : ApiServer C)
    (lister : String → String → Result Error ResolutionRequest) (resolver : String) (req : Request)
    (c : C) where
  -- A request that is listed is read by its condition, and the cluster is not written.
  pub submit-listed :
      (rr : ResolutionRequest)
      → lister req.namespace req.name ≡ ok rr
      → submit k a lister resolver req c ≡ (reading rr (get_condition k rr.status), c)
  unfolding submit
  submit-listed rr h = ground (arith, answer-reading k rr)

  -- The call that creates the request.
  abbrev create_call : Result Error ResolutionRequest × C
  create_call = a.create (submitted resolver req).object_meta.namespace (submitted resolver req) c

  created_state : (x : Result Error ResolutionRequest × C) → (created k a x).1 ≡ x.1
  created_state (ok u, c') = refl
  created_state (err e, c') = refl

  -- Where no request is listed, the cluster after Submit is that after the creation.
  pub submit-creates :
      (e : Error)
      → lister req.namespace req.name ≡ err e
      → (submit k a lister resolver req c).1 ≡ create_call.1
  unfolding submit
  submit-creates e l = ground (arith, created_state create_call)

  submit-unlisted :
      (e : Error) (u : ResolutionRequest)
      → lister req.namespace req.name ≡ err e
      → create_call.0 ≡ ok u
      → submit k a lister resolver req c ≡ (err error_request_in_progress, create_call.1)
  unfolding submit
  submit-unlisted e u h ac = rw (h, submit) (created-ok k a u create_call ac)

  -- Where none is listed one is created, and the client is told that it is in progress.
  pub submit-created :
      (e : Error) (u : ResolutionRequest)
      → lister req.namespace req.name ≡ err e
      → create_call.0 ≡ ok u
      → (new : ResolutionRequest) × ((submit k a lister resolver req c).0
          ≡ err error_request_in_progress)
        × (a.stored req.namespace req.name (submit k a lister resolver req c).1 ≡ some new)
        × (new.spec.parameters ≡ req.params)
        × (new.status.duck.conditions ≡ [])
        × (filter_by_selector (some ((label_key_resolver_type, resolver) ∷ [])) (some new) ≡ true)
  submit-created e u h ac =
      let (name, namespace, labels, params, conditions) = submitted_fields resolver req in
      let (v, time, generation, stored) = a.create-ok _ (submitted resolver req) u c ac in
      let step = submit-unlisted e u h ac in
      (
        with_status (born (submitted resolver req) time generation) (submitted resolver req).status
            v,
        ap (λ r. r.0) step,
        ap (λ r. a.stored req.namespace req.name r.1) step
            ∙ subst₂
                (λ ns n.
                  a.stored ns n create_call.1
                  ≡ some (
                      with_status (born (submitted resolver req) time generation)
                        (submitted resolver req).status v))
                namespace name stored,
        params,
        conditions,
        selects_label resolver
            (with_status (born (submitted resolver req) time generation)
              (submitted resolver req).status v)
            labels,
      )

  -- Submit answers a resource for a listed request that is true, and it is that request.
  pub submit-ok :
      (rr : ResolutionRequest) (ro : ReadOnly)
      → lister req.namespace req.name ≡ ok rr
      → (submit k a lister resolver req c).0 ≡ ok ro
      → (k.is_true (get_condition k rr.status) ≡ true) × (ro ≡ record { req = rr })
  submit-ok rr ro l h =
      reading-ok k rr ro (get_condition k rr.status) (ap (λ x. x.0) (sym (submit-listed rr l)) ∙ h)

-- ===== src/Framework/Outcomes.antt =====
-- What Reconcile answers the work queue, and which request it leaves alone.
use resolution.Prelude.{
  String, ◌≡◌, ap, inl, inr, true, false, Option, none, some, Result, ok, err, arith, sprintf,
  Result-cases, Bool-cases, ◌≢◌,
}
use resolution.Common.Errors.{
  Error, message, reason_error, invalid_request, invalid_resource_key, getting_resource,
}
use resolution.Common.Context.{Ctx}
use resolution.Api.{condition_false, ResolutionRequest}
use resolution.Api.Lifecycle.{get_condition, is_done}
use resolution.Cluster.{ApiServer, merge_status}
use resolution.Knative.Manager.{Manager, succeeded}
use resolution.Knative.Outcome.{Outcome, permanent}
use resolution.Framework.{
  ResolvedResource, Sent, on_err_chan, on_resource_chan, Selected, received, context_done, Choice,
  worker_wins, context_ends, Resolver, resolved, Reconciler, on_error, worker, select, conclude,
  request_ctx, reconcile_listed, reconcile, patched,
}
use resolution.Framework.Writes.{
  on_error-answer, find_stored, fetched, Accepts, on_error-failed, write_resolved_data-patched,
  patch_call, patch_of, conclude-resource,
}

-- nil, or an error that the queue does not retry.
abbrev pub IsFinal : Option Outcome → Type 0
IsFinal none = Unit
IsFinal (some (permanent e)) = Unit
IsFinal (some _) = ⊥

-- The select hears neither a nil error nor a context that is done without one.
abbrev HasNoNil : Selected → Type 0
HasNoNil (received (on_err_chan none)) = ⊥
HasNoNil (context_done none) = ⊥
HasNoNil _ = Unit

resolved-HasNoNil :
    (name key : String) (x : Result Error ResolvedResource)
    → HasNoNil (received (resolved name key x))
resolved-HasNoNil name key (ok resource) = tt
resolved-HasNoNil name key (err e) = tt

-- The goroutine sends no nil error.
worker-HasNoNil :
    (r : Resolver) (ctx : Ctx) (key : String) (rr : ResolutionRequest)
    → HasNoNil (received (worker r ctx key rr))
unfolding worker
worker-HasNoNil r ctx key rr =
    elim (r.validate_params ctx rr.spec.parameters)
      as (λ o. HasNoNil (
        received (elim o as (λ _. Sent) [
          | some e ↦ on_err_chan (some (invalid_request key (message e)))
          | none ↦ resolved (r.get_name ctx) key (r.resolve ctx rr.spec.parameters)
        ]))) [
          | some e ↦ tt
          | none ↦ resolved-HasNoNil (r.get_name ctx) key (r.resolve ctx rr.spec.parameters)
        ]

select-HasNoNil :
    (r : Reconciler) (choice : Choice) (ctx : Ctx) (ns key : String) (rr : ResolutionRequest)
    → HasNoNil (select choice (worker r.resolver (request_ctx r ns ctx) key rr))
unfolding select
select-HasNoNil r worker_wins ctx ns key rr =
    worker-HasNoNil r.resolver (request_ctx r ns ctx) key rr
select-HasNoNil r (context_ends e) ctx ns key rr = tt

module _ {C : Type 0} (k : Manager) (a : ApiServer C) where
  on_error-IsFinal :
      (rr : ResolutionRequest) (e : Error) (c : C) → IsFinal (on_error k a (some rr) (some e) c).0
  on_error-IsFinal rr e c = rw (on_error-answer k a (some rr) e c) tt

  patched-IsFinal :
      (rr : ResolutionRequest) (x : Result Error ResolutionRequest × C)
      → IsFinal (patched k a rr x).0
  patched-IsFinal rr (ok u, c) = tt
  patched-IsFinal rr (err e, c) = on_error-IsFinal rr _ c

  conclude-IsFinal :
      (rr : ResolutionRequest) (s : Selected) (c : C) → HasNoNil s → IsFinal (conclude k a rr s c).0
  unfolding conclude
  conclude-IsFinal rr (received (on_err_chan none)) c h = absurd h
  conclude-IsFinal rr (received (on_err_chan (some e))) c h = on_error-IsFinal rr e c
  conclude-IsFinal rr (context_done none) c h = absurd h
  conclude-IsFinal rr (context_done (some e)) c h = on_error-IsFinal rr e c
  conclude-IsFinal rr (received (on_resource_chan resource)) c h =
      rw (write_resolved_data-patched k a rr resource c)
        (patched-IsFinal rr (patch_call k a rr resource c))

  reconcile_listed-IsFinal :
      (r : Reconciler) (choice : Choice) (ctx : Ctx) (ns key : String) (rr : ResolutionRequest)
      (c : C)
      → IsFinal (reconcile_listed k a r choice ctx ns key rr c).0
  unfolding reconcile_listed
  reconcile_listed-IsFinal r choice ctx ns key rr c =
      elim (is_done k rr)
        as (λ b.
          IsFinal
            (elim b as (λ _. Option Outcome × C) [
              | true ↦ (none, c)
              | false ↦
                  conclude k a rr (select choice (worker r.resolver (request_ctx r ns ctx) key rr))
                    c
            ]).0) [
              | true ↦ tt
              | false ↦ conclude-IsFinal rr _ c (select-HasNoNil r choice ctx ns key rr)
            ]

module _ {C : Type 0} (k : Manager) (a : ApiServer C)
    (split : String → Result Error (String × String)) (r : Reconciler) (choice : Choice) (ctx : Ctx)
    (key : String) (c : C) where
  -- A key that does not split, a request that is not listed and one that is done write nothing, and
  -- only the last is no error.
  pub reconcile-bad_key :
      (e : Error)
      → split key ≡ err e
      → reconcile k a split r choice ctx key c
        ≡ (some (permanent (some (invalid_resource_key key e))), c)
  unfolding reconcile
  reconcile-bad_key e h = ground arith

  pub reconcile-unlisted :
      (ns name : String) (e : Error)
      → split key ≡ ok (ns, name)
      → r.lister ns name ≡ err e
      → reconcile k a split r choice ctx key c
        ≡ (some (permanent (some (getting_resource "resolutionrequest" key e))), c)
  unfolding reconcile
  reconcile-unlisted ns name e h l = ground arith

  pub reconcile-done :
      (ns name : String) (rr : ResolutionRequest)
      → split key ≡ ok (ns, name)
      → r.lister ns name ≡ ok rr
      → is_done k rr ≡ true
      → reconcile k a split r choice ctx key c ≡ (none, c)
  unfolding reconcile reconcile_listed
  reconcile-done ns name rr h l d = ground arith

  pub reconcile-listed :
      (ns name : String) (rr : ResolutionRequest)
      → split key ≡ ok (ns, name)
      → r.lister ns name ≡ ok rr
      → is_done k rr ≡ false
      → reconcile k a split r choice ctx key c
        ≡ conclude k a rr (select choice (worker r.resolver (request_ctx r ns ctx) key rr)) c
  unfolding reconcile reconcile_listed
  reconcile-listed ns name rr h l d = ground arith

  -- Reconcile answers nil or a permanent error, which the work queue does not retry.
  pub reconcile-IsFinal : IsFinal (reconcile k a split r choice ctx key c).0
  reconcile-IsFinal = elim (Result-cases (split key)) [
    | inr (e, h) ↦ rw (reconcile-bad_key e h) tt
    | inl ((ns, name), h) ↦ elim (Result-cases (r.lister ns name)) [
      | inr (e, l) ↦ rw (reconcile-unlisted ns name e h l) tt
      | inl (rr, l) ↦ elim (Bool-cases (is_done k rr)) [
        | inl d ↦ rw (reconcile-done ns name rr h l d) tt
        | inr o ↦ rw (reconcile-listed ns name rr h l o) (
            conclude-IsFinal k a rr
              (select choice (worker r.resolver (request_ctx r ns ctx) key rr)) c
              (select-HasNoNil r choice ctx ns key rr))
      ]
    ]
  ]

  -- A request for which the cluster may be written: it is listed under its key, and is not done.
  abbrev pub IsEligible : ResolutionRequest → Type 0
  IsEligible rr =
      (ns : String) × (name : String) × (split key ≡ ok (ns, name))
      × (r.lister ns name ≡ ok rr)
      × (is_done k rr ≡ false)

  -- A reconciliation that changes the cluster is of an eligible request.
  pub reconcile_writes :
      (reconcile k a split r choice ctx key c).1 ≢ c → (rr : ResolutionRequest) × IsEligible rr
  reconcile_writes w = elim (Result-cases (split key)) [
    | inr (e, h) ↦ absurd (w (ap (λ x. x.1) (reconcile-bad_key e h)))
    | inl ((ns, name), h) ↦ elim (Result-cases (r.lister ns name)) [
      | inr (e, l) ↦ absurd (w (ap (λ x. x.1) (reconcile-unlisted ns name e h l)))
      | inl (rr, l) ↦ elim (Bool-cases (is_done k rr)) [
        | inl d ↦ absurd (w (ap (λ x. x.1) (reconcile-done ns name rr h l d)))
        | inr o ↦ (rr, (ns, name, h, l, o))
      ]
    ]
  ]

-- The error that the select of resolve() hears, if it hears one.
abbrev pub error_of : Selected → Option Error
error_of (received (on_err_chan e)) = e
error_of (received (on_resource_chan resource)) = none
error_of (context_done e) = e

conclude-error :
    {C : Type 0} (k : Manager) (a : ApiServer C) (rr : ResolutionRequest) (s : Selected) (e : Error)
    (c : C)
    → error_of s ≡ some e
    → conclude k a rr s c ≡ on_error k a (some rr) (some e) c
unfolding conclude
conclude-error k a rr (received (on_err_chan none)) e c h = cc
conclude-error k a rr (received (on_err_chan (some e'))) e c h =
    ap (λ o. on_error k a (some rr) o c) h
conclude-error k a rr (context_done none) e c h = cc
conclude-error k a rr (received (on_resource_chan resource)) e c h = cc
conclude-error k a rr (context_done (some e')) e c h = ap (λ o. on_error k a (some rr) o c) h

-- What the select hears when a listed request is reconciled.
abbrev pub heard : Reconciler → Choice → Ctx → String → String → ResolutionRequest → Selected
heard r choice ctx ns key rr = select choice (worker r.resolver (request_ctx r ns ctx) key rr)

module _ {C : Type 0} (k : Manager) (a : ApiServer C)
    (split : String → Result Error (String × String)) (r : Reconciler) (choice : Choice) (ctx : Ctx)
    (key ns name : String) (rr : ResolutionRequest) (c : C) (keyed : split key ≡ ok (ns, name))
    (listed : r.lister ns name ≡ ok rr) (unfinished : is_done k rr ≡ false) where
  -- An error that the select hears fails the stored request, unless that is done by then or the server
  -- refuses the update: the request then has the error's reason and, printed as a format, its
  -- message. Its data stays.
  pub reconcile-failed :
      (e : Error) (latest : ResolutionRequest)
      → error_of (heard r choice ctx ns key rr) ≡ some e
      → fetched k a rr c ≡ ok latest
      → is_done k latest ≡ false
      → Accepts k a rr e latest c
      → (new : ResolutionRequest) × (find_stored k a rr (reconcile k a split r choice ctx key c).1
          ≡ some new)
        × (get_condition k new.status
            ≡ some (succeeded condition_false (reason_error e).0 (sprintf (message e))))
        × (new.status.fields ≡ latest.status.fields)
        × (new.spec ≡ latest.spec)
  reconcile-failed e latest h g d ac =
      rw (reconcile-listed k a split r choice ctx key c ns name rr keyed listed unfinished) (
        rw (conclude-error k a rr (heard r choice ctx ns key rr) e c h)
          (on_error-failed k a rr latest e c g d ac))

  -- A resource that the select hears is stored, encoded, with its annotations, if the server accepts
  -- the patch. The answer is nil, and the conditions are those that were stored before.
  pub reconcile-resolved :
      (resource : ResolvedResource) (old u : ResolutionRequest)
      → heard r choice ctx ns key rr ≡ received (on_resource_chan resource)
      → find_stored k a rr c ≡ some old
      → (patch_call k a rr resource c).0 ≡ ok u
      → (new : ResolutionRequest) × ((reconcile k a split r choice ctx key c).0 ≡ none)
        × (find_stored k a rr (reconcile k a split r choice ctx key c).1 ≡ some new)
        × (new.status ≡ merge_status (patch_of k a resource) old.status)
        × (new.spec ≡ old.spec)
  reconcile-resolved resource old u h st ac =
      rw (reconcile-listed k a split r choice ctx key c ns name rr keyed listed unfinished)
        (rw h (conclude-resource k a rr old u resource c st ac))

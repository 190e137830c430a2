-- ===== src/System/Protocol/Refines/Resolves.antt =====
-- The controllers of the resolvers, and the client.
use mathlib.Core.List.Memᴰ.{head, tail}
use mathlib.Core.List.{List, ◌∷◌}
use mathlib.Core.Path.{subst, subst₂}
use resolution.Prelude.{
  none, String, ◌≡◌, sym, ap, ◌∙◌, refl, false, some, inl, inr, Result, ok, err, Result-cases,
  Bool-cases,
}
use resolution.Common.Errors.{Error}
use resolution.Common.Context.{Ctx}
use resolution.Api.{ResolutionRequest}
use resolution.Api.Lifecycle.{is_done}
use resolution.Cluster.{kept, wrote, marshal-document}
use resolution.Framework.{
  Sent, worker_wins, context_ends, Selected, received, context_done, on_err_chan, on_resource_chan,
  ResolvedResource, Choice, Reconciler, worker, request_ctx, select, reconcile, conclude, on_error,
  patched,
}
use resolution.Framework.Writes.{
  fetched, failing, on_error-done, on_error-missing, on_error-update, patch_call, patch_of,
  write_resolved_data-patched,
}
use resolution.Framework.Outcomes.{
  reconcile-bad_key, reconcile-unlisted, reconcile-done, reconcile-listed,
}
use resolution.Resource.{Request}
use resolution.Resource.Requester.{submit, submitted}
use resolution.Resource.Requester.Answers.{submit-listed, submit-creates}
use resolution.System.Protocol.{Rules, fail, attach, read, Steps, stay, next, Steps-trans}
use resolution.System.Protocol.Refines.{view, Covers}
use resolution.System.Protocol.Refines.Server.{created-Steps, kept-Steps, wrote-Steps}

-- A resource that the select hears is what the goroutine sent.
select-received :
    (choice : Choice) (sent : Sent) (resource : ResolvedResource)
    → select choice sent ≡ received (on_resource_chan resource)
    → sent ≡ on_resource_chan resource
unfolding select
select-received worker_wins sent resource h = cc
select-received (context_ends e) sent resource h = cc

module _ {C : Type 0} (rules : Rules C) (ns name : String) where
  -- A run of the protocol from one state of the cluster to another, which may have read more.
  abbrev pub Progress : List ResolutionRequest → C → C → Type 0
  Progress seen c c' =
      (more : List ResolutionRequest) × Covers rules ns name more seen
      × Steps rules (view rules ns name seen c) (view rules ns name more c')

  still : (seen : List ResolutionRequest) (c c' : C) → c' ≡ c → Progress seen c c'
  still seen c c' e =
      subst (Progress seen c) (sym e) (seen, (λ s m. m), stay (view rules ns name seen c))

  Progress-trans :
      (seen : List ResolutionRequest) (c c' c'' : C)
      → Steps rules (view rules ns name seen c) (view rules ns name seen c')
      → Progress seen c' c''
      → Progress seen c c''
  Progress-trans seen c c' c'' s (more, covers, t) = (more, covers, Steps-trans rules _ _ _ s t)

  -- The update of MarkFailed, onto the request that was just read.
  failed-Progress :
      (seen : List ResolutionRequest) (c : C) (rr latest : ResolutionRequest) (e : Error)
      → rules.server.stored rr.object_meta.namespace rr.object_meta.name c ≡ some latest
      → is_done rules.manager latest ≡ false
      → Progress seen c
          (rules.server.update_status rr.object_meta.namespace
            (failing rules.manager rules.server latest e)
            c).1
  failed-Progress seen c rr latest e found open_ =
      elim (rules.server.update_status-Change rr.object_meta.namespace
        (failing rules.manager rules.server latest e) c ns name) [
          | kept x l ↦ (seen, (λ s m. m), kept-Steps rules ns name seen c _ x l)
          | wrote new v (old, en, em, at, ver, f) x l h ↦
              let names = rules.server.stored_name _ _ c latest found in
              let here : rules.server.stored ns name c ≡ some latest =
                subst₂ (λ p q. rules.server.stored p q c ≡ some latest) (sym en)
                  (sym (em ∙ names.1)) found in
              (
                latest ∷ seen,
                (λ s m. tail m),
                next _ _ _ (read (view rules ns name seen c) latest here) (
                    wrote-Steps rules ns name (latest ∷ seen) c _ old _ v at
                      (fail latest _ _ (head refl) (sym ver) open_) (x ∙ ap (λ g. some (g v)) f) l
                      h),
              )
        ]

  -- OnError
  on_error-Progress :
      (seen : List ResolutionRequest) (c : C) (rr : ResolutionRequest) (e : Error)
      → Progress seen c (on_error rules.manager rules.server (some rr) (some e) c).1
  on_error-Progress seen c rr e = elim (Result-cases (fetched rules.manager rules.server rr c)) [
    | inr (e', g) ↦ still seen c _ (on_error-missing rules.manager rules.server rr e e' c g)
    | inl (latest, g) ↦ elim (Bool-cases (is_done rules.manager latest)) [
      | inl d ↦
          still seen c _
            (ap (λ x. x.1) (on_error-done rules.manager rules.server rr latest e c g d))
      | inr o ↦
          subst (Progress seen c)
            (sym (on_error-update rules.manager rules.server rr latest e c g o))
            (failed-Progress seen c rr latest e (rules.server.get-ok _ _ c latest g) o)
    ]
  ]

  patched-Progress :
      (seen : List ResolutionRequest) (c : C) (rr : ResolutionRequest)
      (x : Result Error ResolutionRequest × C)
      → Steps rules (view rules ns name seen c) (view rules ns name seen x.1)
      → Progress seen c (patched rules.manager rules.server rr x).1
  patched-Progress seen c rr (ok u, c') s = (seen, (λ s m. m), s)
  patched-Progress seen c rr (err e, c') s =
      Progress-trans seen c c' _ s (on_error-Progress seen c' rr _)

  patch-Steps :
      (seen : List ResolutionRequest) (c : C) (rr : ResolutionRequest) (resource : ResolvedResource)
      → rules.offered resource
      → Steps rules
          (view rules ns name seen c)
          (view rules ns name seen (patch_call rules.manager rules.server rr resource c).1)
  patch-Steps seen c rr resource o =
      elim (rules.server.patch_status-Change _ _ (patch_of rules.manager rules.server resource) _ c
        ns name (marshal-document (patch_of rules.manager rules.server resource))) [
          | kept x l ↦ kept-Steps rules ns name seen c _ x l
          | wrote new v (old, en, em, at, f) x l h ↦
              wrote-Steps rules ns name seen c _ old _ v at (attach resource o)
                (x ∙ ap (λ g. some (g v)) f) l h
        ]

  -- resolve(), from the case of its select
  conclude-Progress :
      (seen : List ResolutionRequest) (c : C) (rr : ResolutionRequest) (s : Selected)
      → ((resource : ResolvedResource)
          → s ≡ received (on_resource_chan resource)
          → rules.offered resource)
      → Progress seen c (conclude rules.manager rules.server rr s c).1
  unfolding conclude
  conclude-Progress seen c rr (received (on_err_chan none)) offers = still seen c _ refl
  conclude-Progress seen c rr (received (on_err_chan (some e))) offers =
      on_error-Progress seen c rr e
  conclude-Progress seen c rr (context_done none) offers = still seen c _ refl
  conclude-Progress seen c rr (context_done (some e)) offers = on_error-Progress seen c rr e
  conclude-Progress seen c rr (received (on_resource_chan resource)) offers =
      subst (λ x. Progress seen c x.1)
        (sym (write_resolved_data-patched rules.manager rules.server rr resource c))
        (patched-Progress seen c rr (patch_call rules.manager rules.server rr resource c)
          (patch-Steps seen c rr resource (offers resource refl)))

  -- Reconcile of pkg/resolver/framework, on any key, with any lister
  pub reconcile-Progress :
      (seen : List ResolutionRequest) (c : C) (split : String → Result Error (String × String))
      (r : Reconciler) (choice : Choice) (ctx : Ctx) (key : String)
      → ((at_ns : String) (rr : ResolutionRequest) (resource : ResolvedResource)
          → worker r.resolver (request_ctx r at_ns ctx) key rr ≡ on_resource_chan resource
          → rules.offered resource)
      → Progress seen c (reconcile rules.manager rules.server split r choice ctx key c).1
  reconcile-Progress seen c split r choice ctx key offers = elim (Result-cases (split key)) [
    | inr (e, h) ↦
        still seen c _ (
          ap (λ x. x.1) (reconcile-bad_key rules.manager rules.server split r choice ctx key c e h))
    | inl ((at_ns, at_name), h) ↦ elim (Result-cases (r.lister at_ns at_name)) [
      | inr (e, l) ↦ still seen c _ (
          ap (λ x. x.1)
            (reconcile-unlisted rules.manager rules.server split r choice ctx key c at_ns at_name e
              h l))
      | inl (rr, l) ↦ elim (Bool-cases (is_done rules.manager rr)) [
        | inl d ↦ still seen c _ (
            ap (λ x. x.1)
              (reconcile-done rules.manager rules.server split r choice ctx key c at_ns at_name rr h
                l d))
        | inr o ↦
            subst (λ x. Progress seen c x.1)
              (sym (
                reconcile-listed rules.manager rules.server split r choice ctx key c at_ns at_name
                  rr h l o))
              (conclude-Progress seen c rr
                (select choice (worker r.resolver (request_ctx r at_ns ctx) key rr))
                (λ resource e. offers at_ns rr resource (select-received choice _ _ e)))
      ]
    ]
  ]

  create-Steps :
      (seen : List ResolutionRequest) (c : C) (resolver : String) (req : Request)
      → Steps rules (view rules ns name seen c) (
          view rules ns name seen
            (rules.server.create
              (submitted resolver req).object_meta.namespace
              (submitted resolver req)
              c).1)
  create-Steps seen c resolver req =
      elim (rules.server.create-Change (submitted resolver req).object_meta.namespace
        (submitted resolver req) c ns name) [
          | kept x l ↦ kept-Steps rules ns name seen c _ x l
          | wrote new v (time, generation, en, em, at, f) x l h ↦
              created-Steps rules ns name seen c _ resolver req time generation v at
                (x ∙ ap (λ g. some (g v)) f) l h
        ]

  -- Submit
  pub submit-Progress :
      (seen : List ResolutionRequest) (c : C)
      (lister : String → String → Result Error ResolutionRequest) (resolver : String)
      (req : Request)
      → Progress seen c (submit rules.manager rules.server lister resolver req c).1
  submit-Progress seen c lister resolver req = elim (Result-cases (lister req.namespace req.name)) [
    | inl (rr, l) ↦
        still seen c _
          (ap (λ x. x.1) (submit-listed rules.manager rules.server lister resolver req c rr l))
    | inr (e, l) ↦
        subst (Progress seen c)
          (sym (submit-creates rules.manager rules.server lister resolver req c e l))
          (seen, (λ s m. m), create-Steps seen c resolver req)
  ]

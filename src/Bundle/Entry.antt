-- ===== src/Bundle/Entry.antt =====
-- What the bundle resolver returns.
use mathlib.Core.Path.{subst}
use resolution.Prelude.{
  ℕ, ◌+◌, Option-cases, String, ◌≡◌, inl, inr, Option, none, some, List, Result, ok, err, next_step,
  get_elem?,
}
use resolution.Common.Errors.{Error, invalid_request, message}
use resolution.Common.Context.{Ctx, value, request_namespace_key}
use resolution.Api.{ResolutionRequest}
use resolution.Framework.{
  ResolvedResource, Reconciler, Sent, on_err_chan, on_resource_chan, resolved, worker, request_ctx,
}
use resolution.Framework.Setup.Config.{request_ctx-namespace}
use resolution.Bundle.{
  RequestOptions, ManifestLayer, Registry, get_entry, resolve, options_from_params, bundle_resolver,
  error_only,
}
use resolution.Bundle.Source.{Source, Serves}
use resolution.Bundle.Options.{Parsed, options→Parsed}

module _ {Ref Keychain Image Layer Reader Tar : Type 0}
    (g : Registry Ref Keychain Image Layer Reader Tar) where
  -- The layer that serves an entry, counted from the first of those that are left.
  abbrev Found : RequestOptions → Image → ℕ → List ManifestLayer → ResolvedResource → Type 0
  Found opts image idx ms r =
      (i : ℕ) × (m : ManifestLayer) × (get_elem? ms i ≡ some m) × Serves g opts image (idx + i) m r

  sends :
      (ctx : Ctx) (key : String) (rr : ResolutionRequest) (resource : ResolvedResource)
      → worker (bundle_resolver g) ctx key rr ≡ on_resource_chan resource
      → resolve g ctx rr.spec.parameters ≡ ok resource
  unfolding worker
  sends ctx key rr resource h =
      elim (Option-cases (error_only g (options_from_params g rr.spec.parameters))) [
        | inl e ↦
            sent (resolve g ctx rr.spec.parameters)
              (subst (λ o. outcome o ≡ on_resource_chan resource) e h)
        | inr (e, v) ↦ absurd (bad (subst (λ o. outcome o ≡ on_resource_chan resource) v h))
      ]
    where
      outcome : Option Error → Sent
      outcome o = elim o [
        | some e ↦ on_err_chan (some (invalid_request key (message e)))
        | none ↦ resolved "bundleresolver" key (resolve g ctx rr.spec.parameters)
      ]

      bad : {e : Option Error} → on_err_chan e ≡ on_resource_chan resource → ⊥
      bad h = cc

      sent :
          (x : Result Error ResolvedResource)
          → resolved "bundleresolver" key x ≡ on_resource_chan resource
          → x ≡ ok resource
      sent (ok r) h = cc
      sent (err e) h = cc

  -- What the bundle resolver's goroutine sends as a resource, for a request whose context had no
  -- namespace value, is what GetEntry returns for the request's options, with the credentials of the
  -- service account that they name in the request's own namespace.
  pub worker-bundle :
      (r : Reconciler) (ns : String) (ctx : Ctx) (key : String) (rr : ResolutionRequest)
      (resource : ResolvedResource)
      → value request_namespace_key ctx ≡ none
      → worker (bundle_resolver g) (request_ctx r ns ctx) key rr ≡ on_resource_chan resource
      → (opts : RequestOptions) × Parsed g rr.spec.parameters opts
        × (get_entry g (request_ctx r ns ctx) (g.new_keychain ns opts.service_account).0 opts
            ≡ ok resource)
  unfolding resolve
  worker-bundle r ns ctx key rr resource fresh h =
      let (opts, o, e) =
        next_step (options_from_params g rr.spec.parameters) _ resource
          (sends (request_ctx r ns ctx) key rr resource h) in
      (
        opts,
        options→Parsed g rr.spec.parameters opts o,
        subst
            (λ n.
              get_entry g (request_ctx r ns ctx) (g.new_keychain n opts.service_account).0 opts
              ≡ ok resource)
            (request_ctx-namespace r ns ctx fresh) e,
      )

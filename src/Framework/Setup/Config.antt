-- ===== src/Framework/Setup/Config.antt =====
-- What a resolver reads from the context of a request.
use resolution.Prelude.{
  Option-cases, inl, inr, String, ◌≡◌, refl, ap, ◌∙◌, none, some, List, [], ◌∷◌, GoMap, entries,
  find, lookup, lookup-insert, ◌==◌, arith, if◌then◌else◌,
}
use resolution.Common.Context.{
  Ctx, value, request_namespace_key, request_namespace, get_resolver_config,
  inject_request_namespace, inject_resolver_config, request_namespace-inject,
}
use resolution.Framework.{Reconciler, ConfigStore, copy, get_config, request_ctx}

-- A copied map answers every lookup as the original does.
pub lookup-copy : (k : String) (m : List (String × String)) → lookup k (copy m) ≡ lookup k m
lookup-copy k [] = refl
lookup-copy k ((j, v) ∷ m) =
    lookup-insert j k v (copy m) ∙ ap (λ o. if j == k then some v else o) (lookup-copy k m)

request_ctx-configured :
    (r : Reconciler) (store : ConfigStore) (loaded : GoMap) (ns : String) (ctx : Ctx)
    → r.config_store ≡ some store
    → store.loaded ≡ some loaded
    → request_ctx r ns ctx
      ≡ inject_resolver_config (inject_request_namespace ctx ns) (some (copy (entries loaded)))
unfolding request_ctx get_config
request_ctx-configured r store loaded ns ctx s l = ground arith

namespace_of_configured :
    (ctx : Ctx) (m : GoMap)
    → request_namespace (inject_resolver_config ctx m) ≡ request_namespace ctx
unfolding request_namespace inject_resolver_config value
namespace_of_configured ctx m = refl

config_of_configured :
    (ctx : Ctx) (m : GoMap) → get_resolver_config (inject_resolver_config ctx m) ≡ m
unfolding get_resolver_config inject_resolver_config value
config_of_configured ctx m = refl

pub request_ctx-namespace :
    (r : Reconciler) (ns : String) (ctx : Ctx)
    → value request_namespace_key ctx ≡ none
    → request_namespace (request_ctx r ns ctx) ≡ ns
unfolding request_ctx
request_ctx-namespace r ns ctx n = elim (Option-cases r.config_store) [
  | inl e ↦ rw e (request_namespace-inject ctx ns n)
  | inr (store, e) ↦ rw e (
      namespace_of_configured (inject_request_namespace ctx ns) (get_config store)
      ∙ request_namespace-inject ctx ns n)
]

-- In the context of a request that came with no namespace in its context, a resolver reads the
-- request's namespace and, if it watches a ConfigMap, every entry of the loaded configuration.
pub request_ctx-reads :
    (r : Reconciler) (store : ConfigStore) (loaded : GoMap) (ns k : String) (ctx : Ctx)
    → value request_namespace_key ctx ≡ none
    → r.config_store ≡ some store
    → store.loaded ≡ some loaded
    → (request_namespace (request_ctx r ns ctx) ≡ ns)
      × (find k (get_resolver_config (request_ctx r ns ctx)) ≡ find k loaded)
request_ctx-reads r store loaded ns k ctx n s l =
    let e = request_ctx-configured r store loaded ns ctx s l in
    (
      ap request_namespace e ∙ namespace_of_configured _ _ ∙ request_namespace-inject ctx ns n,
      ap (λ c. find k (get_resolver_config c)) e
          ∙ ap (λ m. find k m) (config_of_configured (inject_request_namespace ctx ns) _)
          ∙ lookup-copy k (entries loaded),
    )

-- Without a configuration, it reads an empty one, never an older one of the context.
request_ctx-empty :
    (r : Reconciler) (store : ConfigStore) (ns k : String) (ctx : Ctx)
    → r.config_store ≡ some store
    → store.loaded ≡ none
    → find k (get_resolver_config (request_ctx r ns ctx)) ≡ none
unfolding request_ctx get_config inject_resolver_config get_resolver_config value
request_ctx-empty r store ns k ctx s l = ground arith

-- ===== src/Framework.antt =====
-- pkg/resolver/framework: the reconciler that every resolver shares (reconciler.go), over the
-- interfaces of interface.go. controller.go and configstore.go are in the child Setup.
pub mod Setup
pub mod Selection
pub mod Writes
pub mod Outcomes
pub mod Reasons
mod Tests
use Prim.Native.String.{◌++◌}
use resolution.Prelude.{
  String, Option, none, some, List, [], ◌∷◌, true, false, GoMap, entries, insert, Result, ok, err,
}
use resolution.Prelude.Int.{ℤ, pos}
use resolution.Common.Errors.{
  Error, plain, wrapped, invalid_resource_key, invalid_request, getting_resource, updating_request,
  message, reason_error,
}
use resolution.Common.Context.{Ctx, inject_request_namespace, inject_resolver_config}
use resolution.Api.{Bytes, ResolutionRequest}
use resolution.Api.Lifecycle.{is_done, mark_failed}
use resolution.Base64.{encode}
use resolution.Cluster.{ApiServer, marshal}
use resolution.Knative.Manager.{Manager}
use resolution.Knative.Outcome.{Outcome, failed, permanent}

-- framework.ResolvedResource, by what its two methods return
pub record ResolvedResource : Type 0 where
  pub content : Bytes
  pub annotations : GoMap

-- framework.Resolver; the methods of the optional interfaces TimedResolution and ConfigWatcher are
-- there or not.
pub record Resolver : Type 0 where
  pub get_name : Ctx → String
  pub get_selector : Ctx → GoMap
  pub validate_params : Ctx → GoMap → Option Error
  pub resolve : Ctx → GoMap → Result Error ResolvedResource
  pub get_resolution_timeout : Option (Ctx → ℤ → ℤ)
  pub get_config_name : Option (Ctx → String)

-- time.Minute
abbrev pub default_maximum_resolution_duration : ℤ
default_maximum_resolution_duration = pos 60_000_000_000

unfoldable pub timeout_duration : Resolver → Ctx → ℤ
timeout_duration r ctx = elim r.get_resolution_timeout [
  | none ↦ default_maximum_resolution_duration
  | some timeout ↦ timeout ctx default_maximum_resolution_duration
]

-- What is sent on errChan, where it may be nil, or on resourceChan.
pub data Sent : Type 0 where
  on_err_chan : Option Error → Sent
  on_resource_chan : ResolvedResource → Sent

abbrev pub resolved : String → String → Result Error ResolvedResource → Sent
resolved name key (ok resource) = on_resource_chan resource
resolved name key (err e) = on_err_chan (some (getting_resource name key e))

-- The goroutine: it validates, resolves, and sends exactly once.
unfoldable pub worker : Resolver → Ctx → String → ResolutionRequest → Sent
worker r ctx key rr = elim (r.validate_params ctx rr.spec.parameters) [
  | some e ↦ on_err_chan (some (invalid_request key (message e)))
  | none ↦ resolved (r.get_name ctx) key (r.resolve ctx rr.spec.parameters)
]

-- The case of the select that is taken: what was sent, or the context's end with what its Err answers.
pub data Selected : Type 0 where
  received : Sent → Selected
  context_done : Option Error → Selected

-- fmt.Sprintf("%s/%s", rr.Namespace, rr.Name)
abbrev pub key_of : ResolutionRequest → String
key_of rr = rr.object_meta.namespace ++ ("/" ++ rr.object_meta.name)

module _ {C : Type 0} (k : Manager) (a : ApiServer C) where
  abbrev written : Result Error ResolutionRequest × C → Option Error × C
  written (ok u, c) = (none, c)
  written (err e, c) = (some e, c)

  -- MarkFailed, which logs its errors too
  mark_request_failed : ResolutionRequest → Error → C → Option Error × C
  mark_request_failed rr e c =
      let ns = rr.object_meta.namespace in
      let (reason, original) = reason_error e in
      elim (a.get ns rr.object_meta.name c) [
        | err e' ↦ (some e', c)
        | ok latest ↦ elim (is_done k latest) [
          | true ↦ (none, c)
          | false ↦ written (
              a.update_status ns
                (record latest { status = mark_failed k reason (message original) latest.status })
                c)
        ]
      ]

  -- OnError
  unfoldable pub on_error : Option ResolutionRequest → Option Error → C → Option Outcome × C
  unfolding mark_request_failed
  on_error none e c = (some (permanent e), c)
  on_error (some rr) none c = (none, c)
  on_error (some rr) (some e) c = (some (permanent (some e)), (mark_request_failed rr e c).1)

  abbrev pub patched : ResolutionRequest → Result Error ResolutionRequest × C → Option Outcome × C
  patched rr (ok u, c) = (none, c)
  patched rr (err e, c) = on_error (some rr) (some (updating_request (key_of rr) e)) c

  pub write_resolved_data : ResolutionRequest → ResolvedResource → C → Option Outcome × C
  write_resolved_data rr resource c =
      elim (marshal
        (record { payload = encode resource.content; annotations = resource.annotations })) [
          | err e ↦
              on_error (some rr)
                (some (
                  updating_request (key_of rr)
                    (wrapped "error serializing resource request patch: " e)))
                c
          | ok doc ↦ patched rr (a.patch_status rr.object_meta.namespace rr.object_meta.name doc c)
        ]

  -- What is left after the select: an error that is not permanent
  abbrev pub unknown_error : C → Option Outcome × C
  unknown_error c = (some (failed (plain "unknown error")), c)

  -- resolve(), from the case of the select that is taken
  unfoldable pub conclude : ResolutionRequest → Selected → C → Option Outcome × C
  unfolding write_resolved_data
  conclude rr (received (on_err_chan none)) c = unknown_error c
  conclude rr (received (on_err_chan (some e))) c = on_error (some rr) (some e) c
  conclude rr (context_done none) c = unknown_error c
  conclude rr (context_done (some e)) c = on_error (some rr) (some e) c
  conclude rr (received (on_resource_chan resource)) c = write_resolved_data rr resource c

-- Which channel resolve() hears first is the schedule's choice. A context that is done has an error.
pub data Choice : Type 0 where
  worker_wins : Choice
  context_ends : Error → Choice

unfoldable pub select : Choice → Sent → Selected
select worker_wins sent = received sent
select (context_ends e) sent = context_done (some e)

-- ConfigStore: what UntypedLoad answers, a map or something else.
pub record ConfigStore : Type 0 where
  pub loaded : Option GoMap

-- The fields of framework.Reconciler that it reads: the resolver, the lister and the store.
pub record Reconciler : Type 0 where
  pub resolver : Resolver
  pub lister : String → String → Result Error ResolutionRequest
  pub config_store : Option ConfigStore

-- A new map that is filled by `for key, val := range m`.
abbrev pub copy : List (String × String) → List (String × String)
copy [] = []
copy ((k, v) ∷ m) = insert k v (copy m)

-- GetResolverConfig: a copy of the loaded map, or an empty one
unfoldable pub get_config : ConfigStore → GoMap
get_config store = elim store.loaded [ none ↦ some [] | some m ↦ some (copy (entries m)) ]

-- The context that resolve() is given.
unfoldable pub request_ctx : Reconciler → String → Ctx → Ctx
request_ctx r ns ctx =
    let ctx' = inject_request_namespace ctx ns in
    elim r.config_store [
      | none ↦ ctx'
      | some store ↦ inject_resolver_config ctx' (get_config store)
    ]

module _ {C : Type 0} (k : Manager) (a : ApiServer C) where
  -- Reconcile on the listed request
  unfoldable pub reconcile_listed :
      Reconciler → Choice → Ctx → String → String → ResolutionRequest → C → Option Outcome × C
  reconcile_listed r choice ctx ns key rr c = elim (is_done k rr) [
    | true ↦ (none, c)
    | false ↦ conclude k a rr (select choice (worker r.resolver (request_ctx r ns ctx) key rr)) c
  ]

  -- Reconcile; `split` is cache.SplitMetaNamespaceKey.
  unfoldable pub reconcile :
      (String → Result Error (String × String))
      → Reconciler
      → Choice
      → Ctx
      → String
      → C
      → Option Outcome × C
  reconcile split r choice ctx key c = elim (split key) [
    | err e ↦ (some (permanent (some (invalid_resource_key key e))), c)
    | ok (ns, name) ↦ elim (r.lister ns name) [
      | err e ↦ (some (permanent (some (getting_resource "resolutionrequest" key e))), c)
      | ok rr ↦ reconcile_listed r choice ctx ns key rr c
    ]
  ]

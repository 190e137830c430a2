-- ===== src/Demo/Answers.antt =====
-- What the demo resolver does with a request, from the framework to the client.
use resolution.Prelude.{
  ℕ, String, ◌≡◌, ◌≢◌, refl, ap, ◌∙◌, Bool, true, false, ◌&&◌, some, [], ◌∷◌, entries, is_nil,
  Result, ok, arith, utf8, ltb,
}
use resolution.Common.Context.{Ctx}
use resolution.Common.Errors.{Error, invalid_request, message}
use resolution.Api.{Bytes, ResolutionRequest}
use resolution.Api.Lifecycle.{is_done}
use resolution.Base64.RoundTrip.{AllBytes}
use resolution.Cluster.{ApiServer}
use resolution.Core.{reconcile_request}
use resolution.Demo.{demo_resolver, my_resolved_resource, pipeline, validate_params}
use resolution.Framework.{
  Reconciler, reconcile, select, worker, worker_wins, received, on_err_chan, on_resource_chan,
  request_ctx,
}
use resolution.Framework.Outcomes.{heard}
use resolution.Framework.Writes.{find_stored, patch_call}
use resolution.Resource.{Request}
use resolution.Resource.Requester.{get_data, submit}
use resolution.System.RoundTrip.{resolved-bytes}
use resolution.Knative.Manager.{Manager}

all_bytes : Bytes → Bool
all_bytes [] = true
all_bytes (b ∷ bs) = ltb b 256 && all_bytes bs

all_bytes_lem : (bs : Bytes) → all_bytes bs ≡ true → AllBytes bs
unfolding all_bytes
all_bytes_lem [] h = tt
all_bytes_lem (b ∷ bs) h = (ground arith, all_bytes_lem bs (ground arith))

content-AllBytes : AllBytes my_resolved_resource.content
unfolding my_resolved_resource all_bytes utf8
content-AllBytes = all_bytes_lem my_resolved_resource.content refl

content-ne-nil : my_resolved_resource.content ≢ []
unfolding my_resolved_resource utf8
content-ne-nil e = cc

-- What the goroutine sends for a request with no parameters, and for one with some.
worker-demo :
    (ctx : Ctx) (key : String) (rr : ResolutionRequest)
    → is_nil (entries rr.spec.parameters) ≡ true
    → worker demo_resolver ctx key rr ≡ on_resource_chan my_resolved_resource
unfolding worker demo_resolver validate_params
worker-demo ctx key rr h = ground arith

worker-refused :
    (ctx : Ctx) (key : String) (rr : ResolutionRequest)
    → is_nil (entries rr.spec.parameters) ≡ false
    → worker demo_resolver ctx key rr ≡ on_err_chan (some (invalid_request key "no params allowed"))
unfolding worker demo_resolver validate_params message
worker-refused ctx key rr h = ground arith

heard-demo :
    (r : Reconciler) (ctx : Ctx) (key ns : String) (rr : ResolutionRequest)
    → r.resolver ≡ demo_resolver
    → is_nil (entries rr.spec.parameters) ≡ true
    → heard r worker_wins ctx ns key rr ≡ received (on_resource_chan my_resolved_resource)
unfolding select
heard-demo r ctx key ns rr demo bare = ap received (
    ap (λ v. worker v (request_ctx r ns ctx) key rr) demo
    ∙ worker-demo (request_ctx r ns ctx) key rr bare)

-- A request without parameters, which is listed to a demo resolver and is not done, is answered with the
-- pipeline: where the select hears the resolver, and the server holds the request unfinished and
-- accepts the patch, whatever the configuration and the core controller's clock, a client to whom the request is then listed as that
-- controller leaves it gets the file's bytes.
pub demo-submit :
    {C : Type 0} (k : Manager) (a : ApiServer C) (split : String → Result Error (String × String))
    (r : Reconciler) (ctx : Ctx) (key ns name : String) (rr old u new : ResolutionRequest) (c : C)
    (now later : ℕ) (lister : String → String → Result Error ResolutionRequest) (resolver : String)
    (req : Request)
    → r.resolver ≡ demo_resolver
    → is_nil (entries rr.spec.parameters) ≡ true
    → split key ≡ ok (ns, name)
    → r.lister ns name ≡ ok rr
    → is_done k rr ≡ false
    → find_stored k a rr c ≡ some old
    → is_done k old ≡ false
    → (patch_call k a rr my_resolved_resource c).0 ≡ ok u
    → find_stored k a rr (reconcile k a split r worker_wins ctx key c).1 ≡ some new
    → lister req.namespace req.name ≡ ok (reconcile_request k now later new).1
    → let final = (reconcile_request k now later new).1 in
      ((submit k a lister resolver req (reconcile k a split r worker_wins ctx key c).1).0
        ≡ ok (record { req = final }))
      × (get_data (record { req = final }) ≡ ok (utf8 pipeline))
unfolding my_resolved_resource
demo-submit k a split r ctx key ns name rr old u new c now later lister resolver req demo bare keyed
      listed open_ st unfinished ac at shown =
    resolved-bytes k a split r worker_wins ctx key ns name rr old u new my_resolved_resource c now
      later lister resolver req keyed listed open_ (heard-demo r ctx key ns rr demo bare) st
      unfinished ac at content-ne-nil content-AllBytes shown

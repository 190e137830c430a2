-- ===== src/System/Races.antt =====
-- The two controllers on one request: data that comes too late, and data that is empty.
use resolution.Prelude.{
  ℕ, String, ◌≡◌, refl, sym, ap, ◌∙◌, ◌<◌, true, false, none, some, List, [], Result, ok,
}
use resolution.Common.{reason_resolution_timed_out}
use resolution.Common.Errors.{Error}
use resolution.Common.Context.{Ctx}
use resolution.Api.{condition_false, ResolutionRequest}
use resolution.Api.Lifecycle.{get_condition, is_done}
use resolution.Base64.{encode}
use resolution.Cluster.{ApiServer, merge_status}
use resolution.Core.{reconcile_request, timeout_message}
use resolution.Core.Outcomes.{deadline, Results, reconcile_request-late}
use resolution.Core.Timeout.{visits, visits-done}
use resolution.Framework.{
  ResolvedResource, Choice, Reconciler, received, on_resource_chan, reconcile,
}
use resolution.Framework.Writes.{find_stored, patch_call}
use resolution.Framework.Outcomes.{heard, reconcile-resolved}
use resolution.Knative.Manager.{Manager, succeeded}

some_injective : (x y : ResolutionRequest) → some x ≡ some y → x ≡ y
some_injective x y e = cc

is_done-merged :
    (k : Manager) (resource : ResolvedResource) (old new : ResolutionRequest)
    → new.status
      ≡ merge_status
          (record { payload = encode resource.content; annotations = resource.annotations })
          old.status
    → is_done k new ≡ is_done k old
unfolding is_done
is_done-merged k resource old new h = rw h refl

condition-merged :
    (k : Manager) (resource : ResolvedResource) (old new : ResolutionRequest)
    → new.status
      ≡ merge_status
          (record { payload = encode resource.content; annotations = resource.annotations })
          old.status
    → get_condition k new.status ≡ get_condition k old.status
condition-merged k resource old new h = ap (λ s. get_condition k s) h

module _ {C : Type 0} (k : Manager) (a : ApiServer C)
    (split : String → Result Error (String × String)) (r : Reconciler) (choice : Choice) (ctx : Ctx)
    (key ns name : String) (rr old u : ResolutionRequest) (resource : ResolvedResource) (c : C)
    (keyed : split key ≡ ok (ns, name)) (listed : r.lister ns name ≡ ok rr)
    (unfinished : is_done k rr ≡ false)
    (hears : heard r choice ctx ns key rr ≡ received (on_resource_chan resource))
    (held : find_stored k a rr c ≡ some old)
    (accepted : (patch_call k a rr resource c).0 ≡ ok u) where
  -- A request that ended while its resolver worked, which the framework learns from no lister, still
  -- gets the resolver's data. Its condition stays the one that ended it, and the core controller's
  -- ReconcileKind, called on it however often, leaves it alone.
  pub resource-after_end :
      is_done k old ≡ true
      → (ts : List (ℕ × ℕ))
      → (new : ResolutionRequest) × (find_stored k a rr (reconcile k a split r choice ctx key c).1
          ≡ some new)
        × (new.status.fields.payload ≡ encode resource.content)
        × (get_condition k new.status ≡ get_condition k old.status)
        × (visits k ts new ≡ new)
  resource-after_end ended ts =
      let (new, _, at, merged, _) =
        reconcile-resolved k a split r choice ctx key ns name rr c keyed listed unfinished resource
          old u hears held accepted in
      (
        new,
        at,
        ap (λ s. s.fields.payload) merged,
        condition-merged k resource old new merged,
        visits-done k ts new (is_done-merged k resource old new merged ∙ ended),
      )

  -- A resource without bytes never completes its request: the core controller, which takes empty data
  -- for missing data, fails the stored request at a visit after the deadline as timed out.
  pub resource-empty :
      resource.content ≡ []
      → is_done k old ≡ false
      → (new : ResolutionRequest) (now later : ℕ)
      → find_stored k a rr (reconcile k a split r choice ctx key c).1 ≡ some new
      → deadline new < now
      → Results k
          (reconcile_request k now later new)
          none
          (succeeded condition_false reason_resolution_timed_out timeout_message)
  unfolding encode
  resource-empty empty open_ new now later at late =
      let (new', _, at', merged', _) =
        reconcile-resolved k a split r choice ctx key ns name rr c keyed listed unfinished resource
          old u hears held accepted in
      let merged = ap (λ x. x.status) (some_injective new new' (sym at ∙ at')) ∙ merged' in
      reconcile_request-late k now later new (is_done-merged k resource old new merged ∙ open_)
        (ap (λ s. s.fields.payload) merged ∙ ap encode empty) late

-- ===== src/System/RoundTrip.antt =====
-- What a resolver returns is what the client reads.
use resolution.Prelude.{
  ℕ, String, ◌≡◌, ◌≢◌, refl, sym, ap, ◌∙◌, false, some, List, [], ◌∷◌, entries, find, lookup,
  Result, ok, map_err,
}
use resolution.Common.Context.{Ctx}
use resolution.Api.{Bytes, ResolutionRequest}
use resolution.Api.Lifecycle.{get_condition, is_done}
use resolution.Base64.{encode, decode}
use resolution.Base64.RoundTrip.{AllBytes, decode-encode}
use resolution.Cluster.{ApiServer, merge_status, merge_map, lookup-insert_all, or_else}
use resolution.Core.{reconcile_request}
use resolution.Core.Outcomes.{reconcile_request-data, reconcile_request-SameButConditions}
use resolution.Framework.{
  ResolvedResource, Choice, Reconciler, received, on_resource_chan, reconcile,
}
use resolution.Framework.Setup.Config.{lookup-copy}
use resolution.Framework.Writes.{find_stored, patch_call}
use resolution.Framework.Outcomes.{heard, reconcile-resolved}
use resolution.Knative.Manager.{Manager}
use resolution.Resource.{Request}
use resolution.Resource.Requester.{annotations, get_data, submit}
use resolution.Resource.Requester.Answers.{reading, submit-listed}
use resolution.Common.Errors.{Error}

pub encode-ne-nil : (bs : Bytes) → bs ≢ [] → encode bs ≢ []
unfolding encode
encode-ne-nil [] n e = absurd (n refl)
encode-ne-nil (x ∷ []) n e = cc
encode-ne-nil (x ∷ y ∷ []) n e = cc
encode-ne-nil (x ∷ y ∷ z ∷ rest) n e = cc

get_data-decoded :
    (rr : ResolutionRequest) (bs : Bytes)
    → decode rr.status.fields.payload ≡ ok bs
    → get_data (record { req = rr }) ≡ ok bs
unfolding get_data
get_data-decoded rr bs h = ap (map_err _) h

-- Data that the framework encoded is decoded by the client to the bytes that it was.
pub get_data-encode :
    (rr : ResolutionRequest) (bs : Bytes)
    → AllBytes bs
    → rr.status.fields.payload ≡ encode bs
    → get_data (record { req = rr }) ≡ ok bs
get_data-encode rr bs bytes h = get_data-decoded rr bs (ap decode h ∙ decode-encode bs bytes)

-- A read of the annotations, where the server holds some.
find-annotations :
    (rr : ResolutionRequest) (m : List (String × String)) (j : String)
    → rr.status.duck.annotations ≡ some m
    → find j (annotations (record { req = rr })) ≡ lookup j m
unfolding annotations
find-annotations rr m j h = rw h (lookup-copy j m)

-- A request that has received a resource: its conditions are those of before.
module _ (k : Manager) (resource : ResolvedResource) (old new : ResolutionRequest)
    (merged : new.status
      ≡ merge_status
          (record { payload = encode resource.content; annotations = resource.annotations })
          old.status)
    (unfinished : is_done k old ≡ false) (now later : ℕ) where
  abbrev final : ResolutionRequest
  final = (reconcile_request k now later new).1

  still_open : is_done k new ≡ false
  unfolding is_done
  still_open = rw merged unfinished

  payload_final : final.status.fields.payload ≡ encode resource.content
  payload_final =
      ap (λ f. f.payload) (reconcile_request-SameButConditions k now later new).fields
      ∙ ap (λ s. s.fields.payload) merged

  annotations_final :
      final.status.duck.annotations ≡ merge_map resource.annotations old.status.duck.annotations
  annotations_final =
      (reconcile_request-SameButConditions k now later new).annotations
      ∙ ap (λ s. s.duck.annotations) merged

  -- Completed by the core controller, it is read by its client with the resolver's bytes.
  read_bytes :
      resource.content ≢ []
      → AllBytes resource.content
      → (reading final (get_condition k final.status) ≡ ok (record { req = final }))
        × (get_data (record { req = final }) ≡ ok resource.content)
  read_bytes n bytes =
      let payload = ap (λ s. s.fields.payload) merged in
      (
        ap (reading final)
            (reconcile_request-data k now later new still_open
              (λ e. encode-ne-nil resource.content n (sym payload ∙ e))).1,
        get_data-encode final resource.content bytes payload_final,
      )

  -- It is read with the resolver's annotations.
  read_annotation :
      (m : List (String × String)) (j v : String)
      → resource.annotations ≡ some m
      → lookup j m ≡ some v
      → find j (annotations (record { req = final })) ≡ some v
  read_annotation m j v am l =
      find-annotations final _ j
        (annotations_final ∙ ap (λ a. merge_map a old.status.duck.annotations) am)
      ∙ lookup-insert_all j m _
      ∙ ap (λ o. or_else o (lookup j (entries old.status.duck.annotations))) l

some_injective : (x y : ResolutionRequest) → some x ≡ some y → x ≡ y
some_injective x y e = cc

module _ {C : Type 0} (k : Manager) (a : ApiServer C)
    (split : String → Result Error (String × String)) (r : Reconciler) (choice : Choice) (ctx : Ctx)
    (key ns name : String) (rr old u new : ResolutionRequest) (resource : ResolvedResource) (c : C)
    (now later : ℕ) (lister : String → String → Result Error ResolutionRequest) (resolver : String)
    (req : Request) (keyed : split key ≡ ok (ns, name)) (listed : r.lister ns name ≡ ok rr)
    (open_ : is_done k rr ≡ false)
    (h : heard r choice ctx ns key rr ≡ received (on_resource_chan resource))
    (st : find_stored k a rr c ≡ some old) (unfinished : is_done k old ≡ false)
    (ac : (patch_call k a rr resource c).0 ≡ ok u)
    (at : find_stored k a rr (reconcile k a split r choice ctx key c).1 ≡ some new) where
  -- What the framework has stored
  stored_status :
      new.status
      ≡ merge_status
          (record { payload = encode resource.content; annotations = resource.annotations })
          old.status
  stored_status =
      let (new', _, at', merged, _) =
        reconcile-resolved k a split r choice ctx key ns name rr c keyed listed open_ resource old u
          h st ac in
      ap (λ x. x.status) (some_injective new new' (sym at ∙ at')) ∙ merged

  -- The client's next Submit answers with the resolver's bytes, whatever the annotations.
  pub resolved-bytes :
      resource.content ≢ []
      → AllBytes resource.content
      → lister req.namespace req.name ≡ ok (reconcile_request k now later new).1
      → let final = (reconcile_request k now later new).1 in
        ((submit k a lister resolver req (reconcile k a split r choice ctx key c).1).0
          ≡ ok (record { req = final }))
        × (get_data (record { req = final }) ≡ ok resource.content)
  resolved-bytes n bytes shown =
      let (answered, payload) =
        read_bytes k resource old new stored_status unfinished now later n bytes in
      (
        ap (λ x. x.0)
              (submit-listed k a lister resolver req (reconcile k a split r choice ctx key c).1
                (reconcile_request k now later new).1 shown)
            ∙ answered,
        payload,
      )

-- From the resolver to its client. A listed request that is not done is reconciled by the framework,
-- whose select hears a resource with some bytes and with annotations; the request that the server holds is
-- not done either, and the server accepts the patch. Whatever the core controller's clock then says, a
-- client to whom the request is listed as that controller's ReconcileKind leaves the stored one gets it:
-- with the resolver's bytes, and under each key the resolver's annotation.
pub resolved-submit :
    {C : Type 0} (k : Manager) (a : ApiServer C) (split : String → Result Error (String × String))
    (r : Reconciler) (choice : Choice) (ctx : Ctx) (key ns name : String)
    (rr old u new : ResolutionRequest) (resource : ResolvedResource) (c : C)
    (m : List (String × String)) (j v : String) (now later : ℕ)
    (lister : String → String → Result Error ResolutionRequest) (resolver : String) (req : Request)
    → split key ≡ ok (ns, name)
    → r.lister ns name ≡ ok rr
    → is_done k rr ≡ false
    → heard r choice ctx ns key rr ≡ received (on_resource_chan resource)
    → find_stored k a rr c ≡ some old
    → is_done k old ≡ false
    → (patch_call k a rr resource c).0 ≡ ok u
    → resource.content ≢ []
    → AllBytes resource.content
    → resource.annotations ≡ some m
    → lookup j m ≡ some v
    → find_stored k a rr (reconcile k a split r choice ctx key c).1 ≡ some new
    → lister req.namespace req.name ≡ ok (reconcile_request k now later new).1
    → let final = (reconcile_request k now later new).1 in
      ((submit k a lister resolver req (reconcile k a split r choice ctx key c).1).0
        ≡ ok (record { req = final }))
      × (get_data (record { req = final }) ≡ ok resource.content)
      × (find j (annotations (record { req = final })) ≡ some v)
resolved-submit k a split r choice ctx key ns name rr old u new resource c m j v now later lister
      resolver req keyed listed open_ h st unfinished ac n bytes am l at shown =
    let merged =
      stored_status k a split r choice ctx key ns name rr old u new resource c now later lister
        resolver req keyed listed open_ h st unfinished ac at in
    let (answered, payload) =
      resolved-bytes k a split r choice ctx key ns name rr old u new resource c now later lister
        resolver req keyed listed open_ h st unfinished ac at n bytes shown in
    (answered, payload, read_annotation k resource old new merged unfinished now later m j v am l)

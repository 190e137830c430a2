-- ===== src/Clients/Agree.antt =====
-- Whether the client over the dynamic client and the typed client ask for the same.
use resolution.Prelude.{String, ◌≡◌, ◌↔◌, refl, sym, ap, ◌∙◌, some, List, [], ◌∷◌, Result, ok, err}
use resolution.Prelude.Int.{ℤ, pos}
use resolution.Common.Errors.{Error}
use resolution.Api.{ResolutionRequest}
use resolution.Clients.{
  Method, Body, no_body, object, options, data_of, Request, list_timeout, list, get, create, update,
  update_status, delete, delete_collection, patch, watch,
}
use resolution.Clients.Dynamic.{
  DynamicCall, dynamic_update, dynamic_update_status, dynamic_create, Answer, Codec, convert,
  with_kind, dynamic_request, run, received, sending, called,
}
use resolution.Clients.Dynamic as Dynamic
use resolution.Clients.Typed.{request}
use resolution.Clients.Typed as Typed

-- Every method but Watch, the lists without a timeout, and Patch only of the object itself
abbrev pub IsSupported : {O : Type 0} → Method O → Type 0
IsSupported (watch opts) = ⊥
IsSupported (list opts) = list_timeout opts.timeout_seconds ≡ pos 0
IsSupported (delete_collection opts list_opts) = list_timeout list_opts.timeout_seconds ≡ pos 0
IsSupported (patch name patch_type doc opts []) = Unit
IsSupported (patch name patch_type doc opts (_ ∷ _)) = ⊥
IsSupported _ = Unit

module _ {U O : Type 0} where
  abbrev subresources_of : List (Request U O) → List String
  subresources_of [] = []
  subresources_of (t ∷ ts) = t.subresources

  abbrev timeout_of : List (Request U O) → ℤ
  timeout_of [] = pos 0
  timeout_of (t ∷ ts) = t.timeout

  -- A request with the objects in another form
  abbrev pub body_with : (ResolutionRequest → U) → Body ResolutionRequest O → Body U O
  body_with form no_body = no_body
  body_with form (object rr) = object (form rr)
  body_with form (options o) = options o
  body_with form (data_of d) = data_of d

  abbrev pub request_with : (ResolutionRequest → U) → Request ResolutionRequest O → Request U O
  request_with form r = record {
    verb = r.verb;
    patch_type = r.patch_type;
    namespace = r.namespace;
    name = r.name;
    subresources = r.subresources;
    params = r.params;
    timeout = r.timeout;
    body = body_with form r.body;
  }

lacks : {x : String} {xs : List String} → ¬ [] ≡ x ∷ xs
lacks e = cc

module _ {U L O J : Type 0} (requests : Codec ResolutionRequest J)
    (lists : Codec (List ResolutionRequest) J) (objects : Codec U J) (object_lists : Codec L J)
    (answer : DynamicCall U O → Result Error (Answer U L)) (name_of : U → String)
    (ns : String) where
  -- A dynamic client that notes what it asks the server for
  abbrev noting :
      String → DynamicCall U O → List (Request U O) → Result Error (Answer U L) × List (Request U O)
  noting at_ns call asked = (answer call, dynamic_request name_of at_ns call ∷ asked)

  -- What the client asks for during a method
  unfoldable pub asked : Method O → List (Request U O)
  unfolding run
  asked m = (run requests lists objects object_lists noting ns m []).1

  called_state :
      (call : DynamicCall U O)
      → (called requests lists objects object_lists noting ns call []).1
        ≡ dynamic_request name_of ns call ∷ []
  called_state call = go (answer call)
    where
      go :
          (a : Result Error (Answer U L))
          → (received requests lists objects object_lists noting ns
              (a, dynamic_request name_of ns call ∷ [])).1
            ≡ dynamic_request name_of ns call ∷ []
      go (ok a) = refl
      go (err e) = refl

  sending_state :
      (r : Result Error U) (call : U → DynamicCall U O) (u : U)
      → r ≡ ok u
      → (sending requests lists objects object_lists noting ns r call []).1
        ≡ dynamic_request name_of ns (call u) ∷ []
  sending_state (ok v) call u e =
      called_state (call v) ∙ ap (λ w. dynamic_request name_of ns (call w) ∷ []) cc
  sending_state (err x) call u e = absurd cc

  -- The dynamic client's requests have no timeout.
  timed :
      (call : DynamicCall U O) (r : Request U O)
      → (called requests lists objects object_lists noting ns call []).1 ≡ r ∷ []
      → r.timeout ≡ (dynamic_request name_of ns call).timeout
  timed call r e = sym (ap timeout_of (sym (called_state call) ∙ e))

  untimed :
      (call : DynamicCall U O) (timeout : ℤ)
      → timeout ≡ (dynamic_request name_of ns call).timeout
      → (called requests lists objects object_lists noting ns call []).1
        ≡ record (dynamic_request name_of ns call) { timeout = timeout } ∷ []
  untimed call timeout e =
      called_state call
      ∙ ap (λ t. record (dynamic_request name_of ns call) { timeout = t } ∷ []) (sym e)

  module _ (form : ResolutionRequest → U)
      (converts : (rr : ResolutionRequest)
        → (convert requests objects (with_kind rr) ≡ ok (form rr))
          × (name_of (form rr) ≡ rr.object_meta.name)) where
    -- An object is converted and keeps its name.
    sent :
        (rr : ResolutionRequest) (call : U → DynamicCall U O) (r : String → Request U O)
        → dynamic_request name_of ns (call (form rr)) ≡ r (name_of (form rr))
        → (sending requests lists objects object_lists noting ns
            (convert requests objects (with_kind rr))
            call
            []).1
          ≡ r rr.object_meta.name ∷ []
    sent rr call r same =
        sending_state _ call (form rr) (converts rr).0
        ∙ ap (λ t. t ∷ []) (same ∙ ap r (converts rr).1)

    -- Where the conversion of an object, whose kind is set before, succeeds and keeps its name: the client
    -- over a dynamic client sends the server the same request as the typed client, with the converted
    -- object in the place of the object, exactly for the methods but Watch, for List and
    -- DeleteCollection exactly with no timeout, and for Patch exactly without subresources.
    pub asked_iff :
        (m : Method O) → (asked m ≡ request_with form (request ns m) ∷ []) ↔ IsSupported m
    unfolding asked run Dynamic.create Dynamic.update Dynamic.update_status Dynamic.delete
        Dynamic.delete_collection Dynamic.get Dynamic.list Dynamic.patch Dynamic.watch request
        Typed.create Typed.update Typed.update_status Typed.delete Typed.delete_collection Typed.get
        Typed.list Typed.patch Typed.watch
    asked_iff (create rr opts) = (
      λ e. tt,
      λ s.
          sent rr (λ uo. dynamic_create uo opts) (λ n. request_with form (Typed.create ns rr opts))
            refl,
    )
    asked_iff (update rr opts) = (
      λ e. tt,
      λ s.
          sent rr (λ uo. dynamic_update uo opts)
            (λ n. record (request_with form (Typed.update ns rr opts)) { name = some n }) refl,
    )
    asked_iff (update_status rr opts) = (
      λ e. tt,
      λ s.
          sent rr (λ uo. dynamic_update_status uo opts)
            (λ n. record (request_with form (Typed.update_status ns rr opts)) { name = some n })
            refl,
    )
    asked_iff (delete name opts) = (λ e. tt, λ s. called_state _)
    asked_iff (delete_collection opts list_opts) = (
      λ e. timed (Dynamic.dynamic_delete_collection opts list_opts) _ e,
      λ s.
          untimed (Dynamic.dynamic_delete_collection opts list_opts)
            (list_timeout list_opts.timeout_seconds) s,
    )
    asked_iff (get name opts) = (λ e. tt, λ s. called_state _)
    asked_iff (list opts) = (
      λ e. timed (Dynamic.dynamic_list opts) _ e,
      λ s. untimed (Dynamic.dynamic_list opts) (list_timeout opts.timeout_seconds) s,
    )
    asked_iff (watch opts) = (λ e. cc, λ s. absurd s)
    asked_iff (patch name patch_type doc opts []) = (λ e. tt, λ s. called_state _)
    asked_iff (patch name patch_type doc opts (x ∷ xs)) = (
      λ e. lacks (
          ap subresources_of
            (sym (called_state (Dynamic.dynamic_patch name patch_type doc opts [])) ∙ e)),
      λ s. absurd s,
    )

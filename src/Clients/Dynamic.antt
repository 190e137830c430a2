-- ===== src/Clients/Dynamic.antt =====
-- injection/client/client.go: the client over client-go's dynamic one, which is a parameter: `U` is the
-- type of its objects, and `L` that of its lists of them.
use resolution.Prelude.{String, Option, none, some, List, [], ◌∷◌, Result, ok, err, map_err, ◌>>=◌}
use resolution.Prelude.Int.{pos}
use resolution.Common.Errors.{Error, plain, wrapped}
use resolution.Api.{ResolutionRequest}
use resolution.Cluster.{Json}
use resolution.Clients.{
  ListOptions, Method, Verb, http_get, http_post, http_put, http_patch, http_delete, Request, Body,
  no_body, object, options, data_of, Params, no_params, call_params, list_params,
}
use resolution.Clients as Clients

-- The calls of dynamic.ResourceInterface; only that of a patch is given subresources, or none of them.
pub data DynamicCall (U O : Type 0) : Type 0 where
  dynamic_create dynamic_update dynamic_update_status : U → O → DynamicCall U O
  dynamic_delete dynamic_get : String → O → DynamicCall U O
  dynamic_delete_collection : O → ListOptions O → DynamicCall U O
  dynamic_list : ListOptions O → DynamicCall U O
  dynamic_patch : String → String → Json → O → List String → DynamicCall U O

-- What comes back: an object, a list of objects, or nothing.
pub data Answer (A L : Type 0) : Type 0 where
  one : A → Answer A L
  many : L → Answer A L
  nothing : Answer A L

-- What encoding/json makes of the values of a type, `J` being the type of its texts
pub record Codec (A J : Type 0) : Type 0 where
  pub marshal : A → Result Error J
  pub unmarshal : J → Result Error A

unfoldable pub convert : {A B J : Type 0} → Codec A J → Codec B J → A → Result Error B
convert from_codec to_codec from =
    map_err (wrapped "Marshal() = ") (from_codec.marshal from) >>= λ bs.
    map_err (wrapped "Unmarshal() = ") (to_codec.unmarshal bs)

-- SetGroupVersionKind, on the caller's object
abbrev pub with_kind : ResolutionRequest → ResolutionRequest
with_kind rr = record rr {
  type_meta = record { api_version = "resolution.tekton.dev/v1alpha1"; kind = "ResolutionRequest" };
}

module _ {U L O C J : Type 0} (requests : Codec ResolutionRequest J)
    (lists : Codec (List ResolutionRequest) J) (objects : Codec U J) (object_lists : Codec L J)
    (dyn : String → DynamicCall U O → C → Result Error (Answer U L) × C) (ns : String) where
  -- The answer, converted
  abbrev pub converted :
      Answer U L → Result Error (Answer ResolutionRequest (List ResolutionRequest))
  unfolding convert
  converted (one uo) = convert objects requests uo >>= λ out. ok (one out)
  converted (many l) = convert object_lists lists l >>= λ out. ok (many out)
  converted nothing = ok nothing

  abbrev pub received :
      Result Error (Answer U L) × C
      → Result Error (Answer ResolutionRequest (List ResolutionRequest)) × C
  received (err e, c) = (err e, c)
  received (ok a, c) = (converted a, c)

  abbrev pub called :
      DynamicCall U O → C → Result Error (Answer ResolutionRequest (List ResolutionRequest)) × C
  called call c = received (dyn ns call c)

  -- A call with the object of the caller, once it is converted
  abbrev pub sending :
      Result Error U
      → (U → DynamicCall U O)
      → C
      → Result Error (Answer ResolutionRequest (List ResolutionRequest)) × C
  sending (err e) call c = (err e, c)
  sending (ok uo) call c = called (call uo) c

  -- The methods of wrapResolutionV1alpha1ResolutionRequestImpl
  unfoldable pub create :
      ResolutionRequest
      → O
      → C
      → Result Error (Answer ResolutionRequest (List ResolutionRequest)) × C
  unfolding convert
  create rr opts c =
      sending (convert requests objects (with_kind rr)) (λ uo. dynamic_create uo opts) c

  unfoldable pub delete :
      String → O → C → Result Error (Answer ResolutionRequest (List ResolutionRequest)) × C
  delete name opts c = called (dynamic_delete name opts) c

  unfoldable pub delete_collection :
      O → ListOptions O → C → Result Error (Answer ResolutionRequest (List ResolutionRequest)) × C
  delete_collection opts list_opts c = called (dynamic_delete_collection opts list_opts) c

  unfoldable pub get :
      String → O → C → Result Error (Answer ResolutionRequest (List ResolutionRequest)) × C
  get name opts c = called (dynamic_get name opts) c

  unfoldable pub list :
      ListOptions O → C → Result Error (Answer ResolutionRequest (List ResolutionRequest)) × C
  list opts c = called (dynamic_list opts) c

  -- The subresources are not passed on.
  unfoldable pub patch :
      String
      → String
      → Json
      → O
      → List String
      → C
      → Result Error (Answer ResolutionRequest (List ResolutionRequest)) × C
  patch name patch_type doc opts subresources c =
      called (dynamic_patch name patch_type doc opts []) c

  unfoldable pub update :
      ResolutionRequest
      → O
      → C
      → Result Error (Answer ResolutionRequest (List ResolutionRequest)) × C
  unfolding convert
  update rr opts c =
      sending (convert requests objects (with_kind rr)) (λ uo. dynamic_update uo opts) c

  unfoldable pub update_status :
      ResolutionRequest
      → O
      → C
      → Result Error (Answer ResolutionRequest (List ResolutionRequest)) × C
  unfolding convert
  update_status rr opts c =
      sending (convert requests objects (with_kind rr)) (λ uo. dynamic_update_status uo opts) c

  unfoldable pub watch :
      ListOptions O → C → Result Error (Answer ResolutionRequest (List ResolutionRequest)) × C
  watch opts c = (err (plain "NYI: Watch"), c)

  unfoldable pub run :
      Method O → C → Result Error (Answer ResolutionRequest (List ResolutionRequest)) × C
  unfolding create delete delete_collection get list patch update update_status watch
  run (Clients.create rr opts) c = create rr opts c
  run (Clients.update rr opts) c = update rr opts c
  run (Clients.update_status rr opts) c = update_status rr opts c
  run (Clients.delete name opts) c = delete name opts c
  run (Clients.delete_collection opts list_opts) c = delete_collection opts list_opts c
  run (Clients.get name opts) c = get name opts c
  run (Clients.list opts) c = list opts c
  run (Clients.watch opts) c = watch opts c
  run (Clients.patch name patch_type doc opts subresources) c =
      patch name patch_type doc opts subresources c

-- The request that the dynamic client builds for a call (vendor/k8s.io/client-go/dynamic/simple.go). It has no
-- timeout of its own.
module _ {U O : Type 0} (name_of : U → String) (ns : String) where
  abbrev base : Verb → Option String → List String → Params O → Body U O → Request U O
  base verb name subresources params body = record {
    verb = verb;
    patch_type = none;
    namespace = ns;
    name = name;
    subresources = subresources;
    params = params;
    timeout = pos 0;
    body = body;
  }

  abbrev pub dynamic_request : DynamicCall U O → Request U O
  dynamic_request (dynamic_create uo opts) = base http_post none [] (call_params opts) (object uo)
  dynamic_request (dynamic_update uo opts) =
      base http_put (some (name_of uo)) [] (call_params opts) (object uo)
  dynamic_request (dynamic_update_status uo opts) =
      base http_put (some (name_of uo)) ("status" ∷ []) (call_params opts) (object uo)
  dynamic_request (dynamic_delete name opts) =
      base http_delete (some name) [] no_params (options opts)
  dynamic_request (dynamic_get name opts) = base http_get (some name) [] (call_params opts) no_body
  dynamic_request (dynamic_delete_collection opts list_opts) =
      base http_delete none [] (list_params list_opts) (options opts)
  dynamic_request (dynamic_list opts) = base http_get none [] (list_params opts) no_body
  dynamic_request (dynamic_patch name patch_type doc opts subresources) =
      record (base http_patch (some name) subresources (call_params opts) (data_of doc)) {
        patch_type = some patch_type;
      }

-- ===== src/Resource/Requester.antt =====
-- pkg/resource/crd_resource.go: the requester that uses ResolutionRequest objects.
pub mod Answers
pub mod Owners
use Prim.Native.String.{◌++◌ as append}
use resolution.Prelude.{
  ℕ, String, Bool, true, false, ◌&&◌, ◌||◌, Option, none, some, List, [], ◌∷◌, ◌++◌, GoMap, entries,
  Result, ok, err, map_err, ◌==◌, ◌=?◌, if◌then◌else◌, decimal,
}
use resolution.Common.{label_key_resolver_type, reason_resolution_failed}
use resolution.Common.Errors.{Error, plain, wrapped, new_error, error_request_in_progress}
use resolution.Api.{Bytes, BoolPointer, OwnerReference, ResolutionRequest, get_status}
use resolution.Api.Lifecycle.{get_condition}
use resolution.Base64.{decode}
use resolution.Cluster.{ApiServer}
use resolution.Framework.{copy}
use resolution.Knative.Manager.{Manager}
use resolution.Resource.{Request}

-- `a.Controller == b.Controller`, which compares two `*bool`
same_pointer : Option BoolPointer → Option BoolPointer → Bool
same_pointer none none = true
same_pointer (some p) (some q) = p.address =? q.address
same_pointer _ _ = false

owner_refs_are_equal : OwnerReference → OwnerReference → Bool
unfolding same_pointer
owner_refs_are_equal a b =
    (a.api_version == b.api_version)
    && (a.kind == b.kind)
    && (a.name == b.name)
    && (a.uid == b.uid)
    && same_pointer a.controller b.controller

-- The loop that sets isOwner.
pub is_owner : List OwnerReference → OwnerReference → Bool
unfolding owner_refs_are_equal
is_owner [] new = false
is_owner (ref ∷ refs) new = is_owner refs new || owner_refs_are_equal ref new

-- appendOwnerReference
pub append_owner_reference : ResolutionRequest → Request → ResolutionRequest
unfolding is_owner
append_owner_reference rr req = elim req.owner [
  | none ↦ rr
  | some new ↦ if is_owner rr.object_meta.owner_references new then rr else record rr {
    object_meta = record rr.object_meta {
      owner_references = rr.object_meta.owner_references ++ new ∷ [];
    };
  }
]

-- The object literal of createResolutionRequest: the fields that it leaves out have their zero value.
new_resolution_request : String → Request → ResolutionRequest
new_resolution_request resolver req = record {
  type_meta = record { api_version = "resolution.tekton.dev/v1alpha1"; kind = "ResolutionRequest" };
  object_meta = record {
    name = req.name;
    namespace = req.namespace;
    labels = some ((label_key_resolver_type, resolver) ∷ []);
    owner_references = [];
    finalizers = [];
    resource_version = "";
    generation = 0;
    creation_timestamp = 0;
    deletion_timestamp = none;
  };
  spec = record { parameters = req.params };
  status = record {
    duck = record { observed_generation = 0; conditions = []; annotations = none };
    fields = record { payload = [] };
  };
}

-- The object that a request is submitted as.
unfoldable pub submitted : String → Request → ResolutionRequest
unfolding append_owner_reference new_resolution_request
submitted resolver req = append_owner_reference (new_resolution_request resolver req) req

-- readOnlyResolutionRequest
pub record ReadOnly : Type 0 where
  pub req : ResolutionRequest

-- ReadOnly.Annotations: a copy, or nil
unfoldable pub annotations : ReadOnly → GoMap
annotations r = elim (get_status r.req).annotations [ none ↦ none | some m ↦ some (copy m) ]

-- base64.CorruptInputError
corrupt_input : ℕ → Error
corrupt_input n = plain (append "illegal base64 data at input byte " (decimal n))

-- ReadOnly.Data
unfoldable pub get_data : ReadOnly → Result Error Bytes
unfolding corrupt_input
get_data r =
    map_err (λ n. wrapped "error decoding data from base64: " (corrupt_input n))
      (decode r.req.status.fields.payload)

module _ (k : Manager) where
  -- What Submit answers for a request that is listed.
  answer : ResolutionRequest → Result Error ReadOnly
  answer rr =
      if k.is_unknown (get_condition k rr.status)
      then err error_request_in_progress
      else if k.is_true (get_condition k rr.status)
      then ok (record { req = rr })
      else err
          (new_error reason_resolution_failed (plain (k.get_message (get_condition k rr.status))))

module _ {C : Type 0} (k : Manager) (a : ApiServer C) where
  abbrev created : Result Error ResolutionRequest × C → Result Error ReadOnly × C
  created (ok u, c) = (err error_request_in_progress, c)
  created (err e, c) = (err e, c)

  -- Submit: any error of the lister counts as a missing request.
  unfoldable pub submit :
      (String → String → Result Error ResolutionRequest)
      → String
      → Request
      → C
      → Result Error ReadOnly × C
  unfolding answer
  submit lister resolver req c = elim (lister req.namespace req.name) [
    | ok rr ↦ (answer k rr, c)
    | err e ↦
        created (a.create (submitted resolver req).object_meta.namespace (submitted resolver req) c)
  ]

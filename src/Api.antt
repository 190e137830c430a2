-- ===== src/Api.antt =====
-- pkg/apis/resolution/v1alpha1/resolution_request_types.go: a ResolutionRequest. Of the Kubernetes and
-- Knative types that it embeds, the fields that the program reads or writes. The children are the
-- other files of the package.
pub mod Lifecycle
pub mod Validation
pub mod Copies
pub mod Tests
use resolution.Prelude.{ℕ, String, Option, Bool, List, GoMap}

-- `[]byte`, and the encoded data that the program handles as bytes.
abbrev pub Bytes : Type 0
Bytes = List ℕ

-- metav1.TypeMeta
pub record TypeMeta : Type 0 where
  pub kind : String
  pub api_version : String

-- A `*bool`: Go's `==` on it compares the addresses.
pub record BoolPointer : Type 0 where
  pub address : ℕ
  pub pointee : Bool

-- metav1.OwnerReference
pub record OwnerReference : Type 0 where
  pub api_version : String
  pub kind : String
  pub name : String
  pub uid : String
  pub controller : Option BoolPointer

-- metav1.ObjectMeta. Instants are nanoseconds since Go's zero time.
pub record ObjectMeta : Type 0 where
  pub name : String
  pub namespace : String
  pub labels : GoMap
  pub owner_references : List OwnerReference
  pub finalizers : List String
  pub resource_version : String
  pub generation : ℕ
  pub creation_timestamp : ℕ
  pub deletion_timestamp : Option ℕ

pub data ConditionStatus : Type 0 where
  condition_true condition_false condition_unknown : ConditionStatus

-- apis.Condition, without the transition time, which is not compared.
pub record Condition : Type 0 where
  pub condition_type : String
  pub status : ConditionStatus
  pub reason : String
  pub message : String

-- duckv1.Status
pub record DuckStatus : Type 0 where
  pub observed_generation : ℕ
  pub conditions : List Condition
  pub annotations : GoMap

pub record ResolutionRequestSpec : Type 0 where
  pub parameters : GoMap

pub record ResolutionRequestStatusFields : Type 0 where
  pub payload : Bytes

pub record ResolutionRequestStatus : Type 0 where
  pub duck : DuckStatus
  pub fields : ResolutionRequestStatusFields

pub record ResolutionRequest : Type 0 where
  pub type_meta : TypeMeta
  pub object_meta : ObjectMeta
  pub spec : ResolutionRequestSpec
  pub status : ResolutionRequestStatus

-- GetStatus
abbrev pub get_status : ResolutionRequest → DuckStatus
get_status rr = rr.status.duck

-- ===== src/Clients.antt =====
-- The generated clients of pkg/client: what each of their methods asks of the API server. The typed client
-- (clientset/versioned/typed) is in Typed, the fake one for tests (its directory fake) in Fake, and the
-- one over client-go's dynamic client (injection/client) in Dynamic.
pub mod Typed
pub mod Fake
pub mod Dynamic
mod Actions
pub mod Agree
pub mod Construction
mod Tests
use resolution.Prelude.{ℕ, suc, ◌*◌, String, Bool, Option, none, some, List, []}
use resolution.Prelude.Int.{ℤ, pos, negsuc, sub_ℕ, wrap64}
use resolution.Api.{ResolutionRequest}
use resolution.Cluster.{Json}

-- v1.ListOptions, of which `O` are the fields that the clients only pass on. The other options, of which
-- they pass on everything, are values of `O` too.
pub record ListOptions (O : Type 0) : Type 0 where
  pub timeout_seconds : Option ℤ
  pub watch : Bool
  pub others : O

-- ResolutionRequestInterface: its methods with their arguments
pub data Method (O : Type 0) : Type 0 where
  create update update_status : ResolutionRequest → O → Method O
  delete : String → O → Method O
  delete_collection : O → ListOptions O → Method O
  get : String → O → Method O
  list watch : ListOptions O → Method O
  -- The name, the type of the patch, its data, the options and the subresources
  patch : String → String → Json → O → List String → Method O

-- The methods of HTTP
pub data Verb : Type 0 where
  http_get http_post http_put http_patch http_delete : Verb

-- What an object is sent as, beside the options and the data of a patch.
pub data Body (B O : Type 0) : Type 0 where
  no_body : Body B O
  object : B → Body B O
  options : O → Body B O
  data_of : Json → Body B O

-- The options that are sent as parameters of the URL
pub data Params (O : Type 0) : Type 0 where
  no_params : Params O
  call_params : O → Params O
  list_params : ListOptions O → Params O

-- A request to the API server for the resource "resolutionrequests": `B` is the type of the objects. A
-- timeout of zero is none.
pub record Request (B O : Type 0) : Type 0 where
  pub verb : Verb
  pub patch_type : Option String
  pub namespace : String
  pub name : Option String
  pub subresources : List String
  pub params : Params O
  pub timeout : ℤ
  pub body : Body B O

-- `time.Duration(seconds) * time.Second`, in nanoseconds
abbrev scaled : ℤ → ℕ → ℤ
scaled (pos n) k = pos (n * k)
scaled (negsuc n) k = sub_ℕ 0 (suc n * k)

unfoldable pub list_timeout : Option ℤ → ℤ
list_timeout none = pos 0
list_timeout (some seconds) = wrap64 (scaled seconds 1_000_000_000)

-- What a request is about
pub record Target : Type 0 where
  pub verb : Verb
  pub namespace : String
  pub name : Option String
  pub subresources : List String

abbrev pub target : {B O : Type 0} → Request B O → Target
target r = record {
  verb = r.verb;
  namespace = r.namespace;
  name = r.name;
  subresources = r.subresources;
}

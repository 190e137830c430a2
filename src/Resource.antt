-- ===== src/Resource.antt =====
-- pkg/resource: the client's side, which asks for a resource and polls for it. request.go and
-- resource.go are the types below; crd_resource.go and name.go are the children.
pub mod Requester
pub mod Name
mod Tests
use resolution.Prelude.{String, Option, none, GoMap}
use resolution.Api.{OwnerReference}

-- resource.Request, by what its methods return; `owner` is there if it is an OwnedRequest.
pub record Request : Type 0 where
  pub name : String
  pub namespace : String
  pub params : GoMap
  pub owner : Option OwnerReference

-- NewRequest: a BasicRequest, which has no owner
unfoldable pub new_request : String → String → GoMap → Request
new_request name namespace params = record {
  name = name;
  namespace = namespace;
  params = params;
  owner = none;
}

-- ===== src/Clients/Typed.antt =====
-- clientset/versioned/typed/resolution/v1alpha1/resolutionrequest.go: the request that each method of
-- resolutionRequests builds.
use resolution.Prelude.{String, true, none, some, List, [], ◌∷◌}
use resolution.Prelude.Int.{pos}
use resolution.Api.{ResolutionRequest}
use resolution.Cluster.{Json}
use resolution.Clients.{
  ListOptions, Method, Verb, http_get, http_post, http_put, http_patch, http_delete, Body, no_body,
  object, options, data_of, Params, no_params, call_params, list_params, Request, list_timeout,
}
use resolution.Clients as Clients

module _ {O : Type 0} (ns : String) where
  abbrev pub base : Verb → Request ResolutionRequest O
  base verb = record {
    verb = verb;
    patch_type = none;
    namespace = ns;
    name = none;
    subresources = [];
    params = no_params;
    timeout = pos 0;
    body = no_body;
  }

  unfoldable pub get : String → O → Request ResolutionRequest O
  get name opts = record (base http_get) { name = some name; params = call_params opts }

  unfoldable pub list : ListOptions O → Request ResolutionRequest O
  unfolding list_timeout
  list opts = record (base http_get) {
    params = list_params opts;
    timeout = list_timeout opts.timeout_seconds;
  }

  unfoldable pub watch : ListOptions O → Request ResolutionRequest O
  unfolding list_timeout
  watch opts = record (base http_get) {
    params = list_params (record opts { watch = true });
    timeout = list_timeout opts.timeout_seconds;
  }

  unfoldable pub create : ResolutionRequest → O → Request ResolutionRequest O
  create rr opts = record (base http_post) { params = call_params opts; body = object rr }

  unfoldable pub update : ResolutionRequest → O → Request ResolutionRequest O
  update rr opts = record (base http_put) {
    name = some rr.object_meta.name;
    params = call_params opts;
    body = object rr;
  }

  unfoldable pub update_status : ResolutionRequest → O → Request ResolutionRequest O
  update_status rr opts = record (base http_put) {
    name = some rr.object_meta.name;
    subresources = "status" ∷ [];
    params = call_params opts;
    body = object rr;
  }

  unfoldable pub delete : String → O → Request ResolutionRequest O
  delete name opts = record (base http_delete) { name = some name; body = options opts }

  unfoldable pub delete_collection : O → ListOptions O → Request ResolutionRequest O
  unfolding list_timeout
  delete_collection opts list_opts = record (base http_delete) {
    params = list_params list_opts;
    timeout = list_timeout list_opts.timeout_seconds;
    body = options opts;
  }

  unfoldable pub patch : String → String → Json → O → List String → Request ResolutionRequest O
  patch name patch_type doc opts subresources = record (base http_patch) {
    patch_type = some patch_type;
    name = some name;
    subresources = subresources;
    params = call_params opts;
    body = data_of doc;
  }

  unfoldable pub request : Method O → Request ResolutionRequest O
  unfolding get list watch create update update_status delete delete_collection patch
  request (Clients.get name opts) = get name opts
  request (Clients.list opts) = list opts
  request (Clients.watch opts) = watch opts
  request (Clients.create rr opts) = create rr opts
  request (Clients.update rr opts) = update rr opts
  request (Clients.update_status rr opts) = update_status rr opts
  request (Clients.delete name opts) = delete name opts
  request (Clients.delete_collection opts list_opts) = delete_collection opts list_opts
  request (Clients.patch name patch_type doc opts subresources) =
      patch name patch_type doc opts subresources

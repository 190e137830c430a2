-- ===== src/Samples.antt =====
-- A request, a resolver and a reconciler, for the tests.
use resolution.Prelude.{String, none, some, List, [], ◌∷◌, GoMap, Result, ok, err}
use resolution.Common.{label_key_resolver_type}
use resolution.Common.Errors.{Error, api, not_found}
use resolution.Api.{Bytes, Condition, condition_false, ResolutionRequest}
use resolution.Framework.{ResolvedResource, Resolver, Reconciler}
use resolution.Knative.Manager.{succeeded}
use resolution.Resource.{Request}

abbrev greeting_labels : List (String × String)
greeting_labels = (label_key_resolver_type, "greeting") ∷ []

abbrev pub labelled : GoMap
labelled = some greeting_labels

-- A request, from its conditions, annotations and data.
abbrev pub request_with : List Condition → GoMap → Bytes → ResolutionRequest
request_with conditions annotations payload = record {
  type_meta = record { api_version = "resolution.tekton.dev/v1alpha1"; kind = "ResolutionRequest" };
  object_meta = record {
    name = "job";
    namespace = "team";
    labels = labelled;
    owner_references = [];
    finalizers = [];
    resource_version = "7";
    generation = 1;
    creation_timestamp = 1_000;
    deletion_timestamp = none;
  };
  spec = record { parameters = some (("to", "you") ∷ []) };
  status = record {
    duck = record { observed_generation = 1; conditions = conditions; annotations = annotations };
    fields = record { payload = payload };
  };
}

abbrev pub open_request : ResolutionRequest
open_request = request_with [] none []

abbrev pub timed_out_request : ResolutionRequest
timed_out_request =
    request_with (succeeded condition_false "ResolutionTimedOut" "too late" ∷ []) none []

abbrev pub language : List (String × String)
language = ("language", "en") ∷ []

abbrev pub greeting : Bytes → ResolvedResource
greeting content = record { content = content; annotations = some language }

-- A resolver that answers with a fixed result after it has accepted every parameter.
abbrev pub answering : Result Error ResolvedResource → Resolver
answering result = record {
  get_name = λ ctx. "Greeter";
  get_selector = λ ctx. labelled;
  validate_params = λ ctx params. none;
  resolve = λ ctx params. result;
  get_resolution_timeout = none;
  get_config_name = none;
}

abbrev pub listing : ResolutionRequest → String → String → Result Error ResolutionRequest
listing rr namespace name = ok rr

abbrev pub listing_nothing : String → String → Result Error ResolutionRequest
listing_nothing namespace name = err (api not_found "not found")

abbrev pub reconciler : Result Error ResolvedResource → Reconciler
reconciler result = record {
  resolver = answering result;
  lister = listing open_request;
  config_store = none;
}

abbrev pub split_key : String → Result Error (String × String)
split_key key = ok ("team", "job")

abbrev pub wanted : Request
wanted = record {
  name = "job";
  namespace = "team";
  params = some (("to", "you") ∷ []);
  owner = none;
}

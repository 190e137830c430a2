-- ===== src/Bundle/Tests.antt =====
-- A bundle of two entries, the second of which is wanted.
use Prim.Native.String.{◌++◌ as append}
use resolution.Prelude.{
  String, ◌≡◌, refl, none, some, List, [], ◌∷◌, GoMap, ok, ◌==◌, if◌then◌else◌,
}
use resolution.Common.Context.{value}
use resolution.Api.{Bytes, ResolutionRequest}
use resolution.Framework.{ResolvedResource, Reconciler, worker, request_ctx}
use resolution.Bundle.{
  RequestOptions, ManifestLayer, Registry, options_from_params, entry_annotations, from_tar,
  get_entry, resolve, bundle_resolver,
}
use resolution.Bundle.Options.{Parsed}
use resolution.Bundle.Entry.{worker-bundle}
use resolution.Samples.{open_request, listing}

abbrev layer : String → String → ManifestLayer
layer name digest = record { annotations = entry_annotations "task" name "v1"; digest = digest }

abbrev two_layers : List ManifestLayer
two_layers = layer "build" "sha256:1" ∷ layer "test" "sha256:2" ∷ []

abbrev file_of : String → Bytes
file_of digest = if digest == "sha256:2" then 116 ∷ [] else 98 ∷ []

-- Images are their references, and layers and readers their digests.
abbrev pub registry : Registry String String String String String Bytes
registry = record {
  parse_reference = λ s. ok s;
  new_keychain = λ namespace account. (append namespace (append "/" account), none);
  remote_image = λ ctx keychain reference. ok reference;
  manifest = λ image. ok two_layers;
  layers = λ image. ok ("sha256:1" ∷ "sha256:2" ∷ []);
  layer_digest = λ l. ok l;
  uncompressed = λ l. ok l;
  next = λ reader. ok (1, file_of reader);
  read_once = λ size tar. record { count = 1; buffer = tar; failed = none };
  read_all = λ reader. ok (file_of reader);
}

abbrev bundle_params : GoMap
bundle_params = some (("bundle", "r.io/b") ∷ ("name", "test") ∷ ("kind", "task") ∷ [])

abbrev bundle_options : RequestOptions
bundle_options = record {
  service_account = "default";
  bundle = "r.io/b";
  entry_name = "test";
  kind = "task";
}

abbrev entry : ResolvedResource
entry = record { content = 116 ∷ []; annotations = entry_annotations "task" "test" "v1" }

abbrev bundle_request : ResolutionRequest
bundle_request = record open_request { spec = record { parameters = bundle_params } }

abbrev bundle_reconciler : Reconciler
bundle_reconciler = record {
  resolver = bundle_resolver registry;
  lister = listing bundle_request;
  config_store = none;
}

worker-bundle_example :
    (opts : RequestOptions) × Parsed registry bundle_params opts
    × (get_entry registry
          (request_ctx bundle_reconciler "team" [])
          (registry.new_keychain "team" opts.service_account).0
          opts
        ≡ ok entry)
unfolding value worker resolve options_from_params from_tar
worker-bundle_example =
    worker-bundle registry bundle_reconciler "team" [] "team/job" bundle_request entry refl refl

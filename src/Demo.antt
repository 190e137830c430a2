-- ===== src/Demo.antt =====
-- docs/resolver-template/cmd/demoresolver/main.go: the resolver that the documentation starts from.
pub mod Answers
mod Tests
use resolution.Prelude.{
  String, Option, none, some, List, [], ◌∷◌, GoMap, entries, is_nil, if◌then◌else◌, ok, utf8,
}
use resolution.Common.{label_key_resolver_type}
use resolution.Common.Context.{Ctx}
use resolution.Common.Errors.{Error, plain}
use resolution.Framework.{Resolver, ResolvedResource}

-- The hard-coded file
abbrev pub pipeline : String
pipeline =
    "\napiVersion: tekton.dev/v1beta1\nkind: Pipeline\nmetadata:\n  name: my-pipeline\nspec:\n  tasks:\n  - name: hello-world\n    taskSpec:\n      steps:\n      - image: alpine:3.15.1\n        script: |\n          echo \"hello world\"\n"

-- Data and Annotations of myResolvedResource
unfoldable pub my_resolved_resource : ResolvedResource
my_resolved_resource = record { content = utf8 pipeline; annotations = none }

unfoldable pub validate_params : Ctx → GoMap → Option Error
validate_params ctx params =
    if is_nil (entries params) then none else some (plain "no params allowed")

-- The methods of resolver
unfoldable pub demo_resolver : Resolver
unfolding validate_params my_resolved_resource
demo_resolver = record {
  get_name = λ ctx. "Demo";
  get_selector = λ ctx. some ((label_key_resolver_type, "demo") ∷ []);
  validate_params = validate_params;
  resolve = λ ctx params. ok my_resolved_resource;
  get_resolution_timeout = none;
  get_config_name = none;
}

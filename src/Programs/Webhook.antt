-- ===== src/Programs/Webhook.antt =====
-- cmd/webhook/main.go and pkg/apis/resolution/v1alpha1/register.go: what the webhook is told to default
-- and to validate. knative.dev/pkg/webhook, which answers the API server's reviews, is an interface.
pub mod Admission
use resolution.Prelude.{
  ℕ, String, ◌≡◌, ◌≢◌, ◌↔◌, refl, sym, ap, ◌∙◌, Bool, true, false, ◌&&◌, Option, none, some, List,
  [], ◌∷◌, Result, ok, err, ◌>>=◌, ◌==◌, if◌then◌else◌, index, ok_injective, lookup,
}
use resolution.Common.{label_key_resolver_type}
use resolution.Common.Errors.{Error}
use resolution.Common.Context.{Ctx}
use resolution.Api.{ResolutionRequest}
use resolution.Api.Lifecycle.{set_defaults}
use resolution.Api.Validation.{FieldErrors, validate, validate_iff}

-- schema.GroupVersion, GroupVersionKind and GroupVersionResource, and those without a version
pub record GroupVersion : Type 0 where
  pub group : String
  pub version : String

pub record GroupVersionKind : Type 0 where
  pub group_version : GroupVersion
  pub kind : String

pub record GroupKind : Type 0 where
  pub group : String
  pub kind : String

-- Kind and resource names are qualified alike.
pub record GroupResource : Type 0 where
  pub group : String
  pub resource : String

abbrev pub scheme_group_version : GroupVersion
scheme_group_version = record { group = "resolution.tekton.dev"; version = "v1alpha1" }

abbrev pub with_kind : GroupVersion → String → GroupVersionKind
with_kind gv kind = record { group_version = gv; kind = kind }

-- Kind and Resource of register.go
unfoldable pub kind_of : String → GroupKind
kind_of kind = record { group = scheme_group_version.group; kind = kind }

unfoldable pub resource_of : String → GroupResource
resource_of resource = record { group = scheme_group_version.group; resource = resource }

abbrev pub same_kind : GroupVersionKind → GroupVersionKind → Bool
same_kind a b =
    (a.group_version.group == b.group_version.group)
    && (a.group_version.version == b.group_version.version)
    && (a.kind == b.kind)

-- resourcesemantics.GenericCRD: the methods that the webhook calls; these do not read their context.
pub record GenericCrd (F : Type 0) : Type 0 where
  pub set_defaults : ResolutionRequest → ResolutionRequest
  pub validate : ResolutionRequest → Option F

-- A map by kinds
abbrev pub handler : {H : Type 0} → GroupVersionKind → List (GroupVersionKind × H) → Option H
handler kind [] = none
handler kind ((k, h) ∷ handlers) =
    let rest = handler kind handlers in if same_kind k kind then some h else rest

-- What NewAdmissionController of defaulting and of validation is given
pub record AdmissionController (F : Type 0) : Type 0 where
  pub name : String
  pub path : String
  pub types : List (GroupVersionKind × GenericCrd F)
  pub with_context : Ctx → Ctx
  pub disallow_unknown_fields : Bool
  pub callbacks : List (GroupVersionKind × (ResolutionRequest → Option Error))

-- That of configmaps, with the names of the ConfigMaps that logging and metrics read
pub record ConfigController : Type 0 where
  pub name : String
  pub path : String
  pub constructors : List String

pub record WebhookOptions : Type 0 where
  pub service_name : String
  pub port : ℕ
  pub secret_name : String

module _ {F : Type 0} (f : FieldErrors F) where
  unfoldable pub types : List (GroupVersionKind × GenericCrd F)
  unfolding set_defaults validate
  types =
      (
        with_kind scheme_group_version "ResolutionRequest",
        record { set_defaults = set_defaults; validate = validate f },
      )
      ∷ []

  abbrev callbacks : List (GroupVersionKind × (ResolutionRequest → Option Error))
  callbacks = []

  unfoldable pub new_defaulting_admission_controller : AdmissionController F
  unfolding types
  new_defaulting_admission_controller = record {
    name = "defaulting.webhook.resolution.tekton.dev";
    path = "/defaulting";
    types = types;
    with_context = λ ctx. ctx;
    disallow_unknown_fields = true;
    callbacks = [];
  }

  unfoldable pub new_validation_admission_controller : AdmissionController F
  unfolding types
  new_validation_admission_controller = record {
    name = "validation.webhook.resolution.tekton.dev";
    path = "/resource-validation";
    types = types;
    with_context = λ ctx. ctx;
    disallow_unknown_fields = true;
    callbacks = callbacks;
  }

unfoldable pub new_config_validation_controller : String → String → ConfigController
new_config_validation_controller logging_name metrics_name = record {
  name = "config.webhook.resolution.tekton.dev";
  path = "/config-validation";
  constructors = logging_name ∷ metrics_name ∷ [];
}

-- The options, and the controllers that the webhook's main runs beside that of the certificates
pub record WebhookProgram (F : Type 0) : Type 0 where
  pub options : WebhookOptions
  pub defaulting : AdmissionController F
  pub validation : AdmissionController F
  pub config_validation : ConfigController

unfoldable pub webhook_program : {F : Type 0} → FieldErrors F → String → String → WebhookProgram F
unfolding new_defaulting_admission_controller new_validation_admission_controller
    new_config_validation_controller
webhook_program f logging_name metrics_name = record {
  options = record { service_name = "webhook"; port = 8443; secret_name = "webhook-certs" };
  defaulting = new_defaulting_admission_controller f;
  validation = new_validation_admission_controller f;
  config_validation = new_config_validation_controller logging_name metrics_name;
}

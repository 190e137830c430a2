-- ===== src/Programs/Tests.antt =====
-- The programs over concrete libraries, and a request that is to be created.
use resolution.Prelude.{
  ℕ, String, ◌≡◌, ◌≢◌, ◌↔◌, refl, Bool, true, false, none, some, Option, Result, ok, err, index, [],
}
use resolution.Prelude.Int.{pos}
use resolution.Common.{label_key_resolver_type}
use resolution.Common.Errors.{Error, plain}
use resolution.Api.{ResolutionRequest}
use resolution.Api.Lifecycle.{set_defaults}
use resolution.Api.Tests.{field_errors}
use resolution.Bundle.Tests.{registry}
use resolution.Git.Tests.{one_file}
use resolution.Programs.{git_program, bundle_program, demo_program}
use resolution.Programs.Routes.{Serves, programs-Serves}
use resolution.Programs.Webhook.{GenericCrd, handler, webhook_program, WebhookProgram}
use resolution.Programs.Webhook.Admission.{ReviewLibrary, failure, request_kind, admit, admit_iff}
use resolution.Samples.{open_request, listing}

programs-Serves_example :
    Serves {K = ℕ} 0
      (listing open_request)
      []
      "git"
      (git_program {K = ℕ} 0 (listing open_request) [] one_file (λ s. ok (pos 5)))
    × Serves {K = ℕ} 0
        (listing open_request)
        []
        "bundles"
        (bundle_program {K = ℕ} 0 (listing open_request) [] registry)
    × Serves {K = ℕ} 0
        (listing open_request)
        []
        "demo"
        (demo_program {K = ℕ} 0 (listing open_request) [])
programs-Serves_example =
    programs-Serves {K = ℕ} 0 (listing open_request) [] one_file (λ s. ok (pos 5)) registry

-- A request's text is the request, and whether it has unknown fields.
abbrev Text : Type 0
Text = Bool × ResolutionRequest

abbrev decode_text : Bool → Text → Result Error ResolutionRequest
decode_text true (true, rr) = err (plain "unknown field")
decode_text true (false, rr) = ok rr
decode_text false (unknown, rr) = ok rr

decode_text-clean :
    (strict : Bool) (rr : ResolutionRequest) → decode_text strict (false, rr) ≡ ok rr
decode_text-clean true rr = refl
decode_text-clean false rr = refl

abbrev default_text :
    Option (GenericCrd String) → Result Error ResolutionRequest → Result Error Text
default_text none decoded = err (plain "unhandled kind")
default_text (some crd) (err e) = err e
default_text (some crd) (ok rr) = ok (false, crd.set_defaults rr)

abbrev validate_text : Option (GenericCrd String) → Result Error ResolutionRequest → Option Error
validate_text none decoded = some (plain "unhandled kind")
validate_text (some crd) (err e) = some e
validate_text (some crd) (ok rr) = failure plain (crd.validate rr)

abbrev texts : ReviewLibrary String Text
texts = record {
  decode = decode_text;
  encode = λ rr. (false, rr);
  default_review =
      λ c kind raw. default_text (handler kind c.types) (decode_text c.disallow_unknown_fields raw);
  validate_review = λ c kind raw.
      validate_text (handler kind c.types) (decode_text c.disallow_unknown_fields raw);
  validation_failed = plain;
  decode-encode = decode_text-clean;
  default_known = λ c kind crd raw rr h d. rw (h, d) refl;
  validate_known = λ c kind crd raw rr h n d. rw (h, d) refl;
}

abbrev webhook : WebhookProgram String
webhook = webhook_program field_errors "config-logging" "config-observability"

abbrev admitted : Text
admitted = (false, set_defaults open_request)

admit_iff_example : (admit texts webhook request_kind (false, open_request) ≡ ok admitted) ↔ (
    (admitted ≡ texts.encode (set_defaults open_request))
    × (index label_key_resolver_type open_request.object_meta.labels ≢ ""))
admit_iff_example =
    admit_iff texts field_errors "config-logging" "config-observability" (false, open_request)
      open_request admitted refl

-- A text with an unknown field is refused.
refused : admit texts webhook request_kind (true, open_request) ≡ err (plain "unknown field")
unfolding admit webhook_program
refused = refl

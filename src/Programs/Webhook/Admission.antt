-- ===== src/Programs/Webhook/Admission.antt =====
-- Which requests the webhook admits, and as what.
use resolution.Prelude.{
  String, ◌≡◌, ◌≢◌, ◌↔◌, refl, sym, ap, ◌∙◌, Bool, true, Option, none, some, [], Result, ok, err,
  ◌>>=◌, ok_injective, index,
}
use resolution.Common.{label_key_resolver_type}
use resolution.Common.Errors.{Error}
use resolution.Api.{ResolutionRequest}
use resolution.Api.Lifecycle.{set_defaults}
use resolution.Api.Validation.{FieldErrors, validate, validate_iff}
use resolution.Programs.Webhook.{
  GroupVersionKind, GenericCrd, AdmissionController, handler, with_kind, scheme_group_version,
  WebhookProgram, webhook_program, types,
}

-- The error of a review, if there is one
abbrev pub failure : {F : Type 0} → (F → Error) → Option F → Option Error
failure f none = none
failure f (some e) = some (f e)

-- The reviews of the creation of an object, `Raw` being the type of its text
pub record ReviewLibrary (F Raw : Type 0) : Type 0 where
  -- Whether unknown fields are an error comes first.
  pub decode : Bool → Raw → Result Error ResolutionRequest
  pub encode : ResolutionRequest → Raw
  pub default_review : AdmissionController F → GroupVersionKind → Raw → Result Error Raw
  pub validate_review : AdmissionController F → GroupVersionKind → Raw → Option Error
  pub validation_failed : F → Error
  -- What is encoded is decoded again.
  pub decode-encode : (strict : Bool) (rr : ResolutionRequest) → decode strict (encode rr) ≡ ok rr
  -- An object of a kind that the controller has is decoded, and is defaulted or validated; a controller
  -- without callbacks has no further objection.
  pub default_known :
      (c : AdmissionController F) (kind : GroupVersionKind) (crd : GenericCrd F) (raw : Raw)
      (rr : ResolutionRequest)
      → handler kind c.types ≡ some crd
      → decode c.disallow_unknown_fields raw ≡ ok rr
      → default_review c kind raw ≡ ok (encode (crd.set_defaults rr))
  pub validate_known :
      (c : AdmissionController F) (kind : GroupVersionKind) (crd : GenericCrd F) (raw : Raw)
      (rr : ResolutionRequest)
      → handler kind c.types ≡ some crd
      → c.callbacks ≡ []
      → decode c.disallow_unknown_fields raw ≡ ok rr
      → validate_review c kind raw ≡ failure validation_failed (crd.validate rr)

abbrev pub none_or : {A : Type 0} → Option Error → A → Result Error A
none_or none a = ok a
none_or (some e) a = err e

module _ {F Raw : Type 0} (lib : ReviewLibrary F Raw) (p : WebhookProgram F) where
  -- What the API server does with an object that is to be created: it defaults and then validates.
  unfoldable pub admit : GroupVersionKind → Raw → Result Error Raw
  admit kind raw = lib.default_review p.defaulting kind raw >>= λ raw'.
      none_or (lib.validate_review p.validation kind raw') raw'

abbrev pub request_kind : GroupVersionKind
request_kind = with_kind scheme_group_version "ResolutionRequest"

module _ {F Raw : Type 0} (lib : ReviewLibrary F Raw) (f : FieldErrors F)
    (logging_name metrics_name : String) where
  reviewed :
      (raw : Raw) (rr : ResolutionRequest)
      → lib.decode true raw ≡ ok rr
      → admit lib (webhook_program f logging_name metrics_name) request_kind raw
        ≡ none_or
            (failure lib.validation_failed (validate f (set_defaults rr)))
            (lib.encode (set_defaults rr))
  unfolding admit webhook_program types
  reviewed raw rr d =
      let c = webhook_program f logging_name metrics_name in
      rw (lib.default_known c.defaulting request_kind _ raw rr refl d) (
        ap (λ o. none_or o (lib.encode (set_defaults rr)))
          (lib.validate_known c.validation request_kind _ (lib.encode (set_defaults rr))
            (set_defaults rr) refl refl (lib.decode-encode true (set_defaults rr))))

  decided :
      (o : Option F) (raw u : Raw)
      → (none_or (failure lib.validation_failed o) raw ≡ ok u) ↔ ((u ≡ raw) × (o ≡ none))
  decided none raw u = (λ h. (sym (ok_injective h), refl), λ h. ap ok (sym h.0))
  decided (some e) raw u = (λ h. cc, λ h. cc)

  -- A ResolutionRequest that is to be created, and whose text is decoded without unknown fields, is
  -- admitted by the webhook exactly if its label for the resolver's type is there and is not empty, and
  -- exactly as its defaulted form.
  pub admit_iff :
      (raw : Raw) (rr : ResolutionRequest) (u : Raw)
      → lib.decode true raw ≡ ok rr
      → (admit lib (webhook_program f logging_name metrics_name) request_kind raw ≡ ok u) ↔ (
          (u ≡ lib.encode (set_defaults rr))
          × (index label_key_resolver_type rr.object_meta.labels ≢ ""))
  unfolding set_defaults
  admit_iff raw rr u d =
      let e = reviewed raw rr d in
      let (to, from) = decided (validate f (set_defaults rr)) (lib.encode (set_defaults rr)) u in
      let (valid, admitted) = validate_iff f (set_defaults rr) in
      (
        λ h. let (same, none_) = to (sym e ∙ h) in (same, valid none_),
        λ h. e ∙ from (h.0, admitted h.1),
      )

-- ===== src/Api/Validation.antt =====
-- pkg/apis/resolution/v1alpha1/resolution_request_validation.go: the check of the admission webhook.
pub mod Routed
use resolution.Prelude.{
  String, ◌≡◌, ◌↔◌, refl, Option, none, some, GoMap, index, is_none, ◌==◌, eq_iff, arith,
  if◌then◌else◌, Option-cases, inl, inr, ◌≢◌, true, false, Bool-cases, ap, sym, ◌∙◌,
}
use resolution.Common.{label_key_resolver_type}
use resolution.Api.{ResolutionRequest, ResolutionRequestSpec}

-- knative.dev/pkg/apis.FieldError: a nil pointer is `none`.
pub record FieldErrors (F : Type 0) : Type 0 where
  pub missing_field : String → F
  pub via_field : Option F → String → Option F
  pub also : Option F → Option F → Option F
  -- A nil error stays nil under a field, and is the unit of Also; an error stays one.
  pub via_field-none : (s : String) → via_field none s ≡ none
  pub via_field-some : (e : F) (s : String) → is_none (via_field (some e) s) ≡ false
  pub also-none : (o : Option F) → also none o ≡ o
  pub none-also : (o : Option F) → also o none ≡ o

-- getTypeLabel
get_type_label : GoMap → String
get_type_label labels = elim labels [ none ↦ "" | some m ↦ index label_key_resolver_type (some m) ]

module _ {F : Type 0} (f : FieldErrors F) where
  -- validateTypeLabel
  validate_type_label : ResolutionRequest → Option F
  unfolding get_type_label
  validate_type_label rr =
      if get_type_label rr.object_meta.labels == ""
      then f.via_field (f.via_field (some (f.missing_field label_key_resolver_type)) "labels")
          "meta"
      else none

  -- ResolutionRequestSpec.Validate
  validate_spec : ResolutionRequestSpec → Option F
  validate_spec rs = none

  -- ResolutionRequest.Validate
  unfoldable pub validate : ResolutionRequest → Option F
  unfolding validate_type_label validate_spec
  validate rr =
      let errs = f.also none (validate_type_label rr) in
      f.also errs (f.via_field (validate_spec rr.spec) "spec")

index-get_type_label :
    (labels : GoMap) → get_type_label labels ≡ index label_key_resolver_type labels
unfolding get_type_label
index-get_type_label none = refl
index-get_type_label (some m) = refl

module _ {F : Type 0} (f : FieldErrors F) (rr : ResolutionRequest) where
  validate-label : validate f rr ≡ validate_type_label f rr
  unfolding validate validate_spec
  validate-label =
      ap (λ o. f.also (f.also none (validate_type_label f rr)) o) (f.via_field-none "spec")
      ∙ f.none-also _
      ∙ f.also-none _

  some_twice : (e : F) (s t : String) → f.via_field (f.via_field (some e) s) t ≢ none
  some_twice e s t h = elim (Option-cases (f.via_field (some e) s)) [
    | inl n ↦ cc (ap is_none n, f.via_field-some e s)
    | inr (e', n) ↦ cc (ap is_none (sym (ap (λ o. f.via_field o t) n) ∙ h), f.via_field-some e' t)
  ]

  -- The webhook admits a request exactly when its type label is there and is not empty.
  pub validate_iff :
      (validate f rr ≡ none) ↔ (index label_key_resolver_type rr.object_meta.labels ≢ "")
  unfolding validate_type_label
  validate_iff = ground (
    arith,
    validate-label,
    index-get_type_label rr.object_meta.labels,
    some_twice (f.missing_field label_key_resolver_type) "labels" "meta",
    eq_iff (index label_key_resolver_type rr.object_meta.labels) "",
  )

-- ===== src/Api/Tests.antt =====
-- The API types on concrete requests.
use resolution.Prelude.{◌≡◌, refl, Option, none, some}
use resolution.Api.Validation.{FieldErrors, validate}
use resolution.Samples.{open_request}
use Prim.Native.String.{◌++◌, String}

abbrev under : Option String → String → Option String
under none field = none
under (some e) field = some (field ++ ("." ++ e))

abbrev both : Option String → Option String → Option String
both none e = e
both (some e) none = some e
both (some e) (some f) = some (e ++ (", " ++ f))

pub also_nothing : (o : Option String) → both o none ≡ o
also_nothing none = refl
also_nothing (some e) = refl

-- Field errors as texts.
abbrev pub field_errors : FieldErrors String
field_errors = record {
  missing_field = λ s. s;
  via_field = under;
  also = both;
  via_field-none = λ s. refl;
  via_field-some = λ e s. refl;
  also-none = λ o. refl;
  none-also = also_nothing;
}

unlabelled :
    validate field_errors
      (record open_request { object_meta = record open_request.object_meta { labels = none } })
    ≡ some "meta.labels.resolution.tekton.dev/type"
unfolding validate
unlabelled = refl

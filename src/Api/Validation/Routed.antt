-- ===== src/Api/Validation/Routed.antt =====
-- Admission and routing agree on which requests have a resolver.
use resolution.Prelude.{◌≡◌, true, none, some}
use resolution.Common.Context.{Ctx}
use resolution.Api.{ResolutionRequest}
use resolution.Api.Validation.{FieldErrors, validate, validate_iff}
use resolution.Framework.{Resolver}
use resolution.Framework.Setup.{filter_by_selector, validate_resolver}
use resolution.Framework.Setup.Routing.{filter-same_type}

-- A request that reaches a resolver with a valid selector is one that the webhook admits.
validate-filtered :
    {F : Type 0} (f : FieldErrors F) (ctx : Ctx) (r : Resolver) (rr : ResolutionRequest)
    → validate_resolver ctx r ≡ none
    → filter_by_selector (r.get_selector ctx) (some rr) ≡ true
    → validate f rr ≡ none
validate-filtered f ctx r rr v p = (validate_iff f rr).1 (filter-same_type ctx r r rr v v p p).2

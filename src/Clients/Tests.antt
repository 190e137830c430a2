-- ===== src/Clients/Tests.antt =====
-- Clients over codecs that change nothing: an update of an object, and the patch of its status.
use resolution.Prelude.{ℕ, String, ◌≡◌, ◌↔◌, refl, none, some, List, [], ◌∷◌, Result, ok, err}
use resolution.Prelude.Int.{pos, negsuc, wrap64}
use resolution.Common.Errors.{Error, plain}
use resolution.Api.{ResolutionRequest}
use resolution.Cluster.{text}
use resolution.Clients.{Method, patch, list_timeout}
use resolution.Clients.Agree.{asked, asked_iff, request_with, IsSupported}
use resolution.Clients.Dynamic.{DynamicCall, Answer, nothing, Codec, convert, with_kind}
use resolution.Clients.Typed.{request}

-- The texts are lists of requests.
abbrev single : List ResolutionRequest → Result Error ResolutionRequest
single [] = err (plain "unexpected end of JSON input")
single (rr ∷ rrs) = ok rr

abbrev requests : Codec ResolutionRequest (List ResolutionRequest)
requests = record { marshal = λ rr. ok (rr ∷ []); unmarshal = single }

abbrev lists : Codec (List ResolutionRequest) (List ResolutionRequest)
lists = record { marshal = λ rrs. ok rrs; unmarshal = λ rrs. ok rrs }

abbrev answer :
    DynamicCall ResolutionRequest ℕ
    → Result Error (Answer ResolutionRequest (List ResolutionRequest))
answer call = ok nothing

abbrev name_of : ResolutionRequest → String
name_of rr = rr.object_meta.name

abbrev patch_of_status : Method ℕ
patch_of_status = patch "req" "application/merge-patch+json" (text "done") 0 ("status" ∷ [])

-- The object in the form of the dynamic client, which is the request with its kind
abbrev form : ResolutionRequest → ResolutionRequest
form rr = with_kind rr

asked_iff_example :
    (asked requests lists requests lists answer name_of "default" patch_of_status
      ≡ request_with form (request "default" patch_of_status) ∷ [])
    ↔ IsSupported patch_of_status
unfolding convert
asked_iff_example =
    asked_iff requests lists requests lists answer name_of "default" form (λ rr. (refl, refl))
      patch_of_status

-- 2^63 seconds would be, less a second and in nanoseconds, a second before zero.
timeout :
    (list_timeout none ≡ pos 0)
    × (list_timeout (some (pos 9_223_372_036_854_775_807)) ≡ negsuc 999_999_999)
unfolding list_timeout wrap64
timeout = (refl, refl)

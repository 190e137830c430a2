-- ===== src/Resource/Tests.antt =====
-- A client on concrete requests.
use resolution.Prelude.{◌≡◌, refl, true, none, some, [], err}
use resolution.Common.Errors.{error_request_in_progress, api, not_found}
use resolution.Api.{ResolutionRequest}
use resolution.Api.Lifecycle.{get_condition}
use resolution.Cluster.Memory.{memory}
use resolution.Framework.Setup.{filter_by_selector}
use resolution.Knative.Batch.{batch}
use resolution.Resource.Requester.{submit, submitted}
use resolution.Resource.Requester.Answers.{reading, submit-listed, submit-created}
use resolution.Samples.{timed_out_request, labelled, listing, listing_nothing, wanted}

submit-listed_example :
    submit batch memory (listing timed_out_request) "greeting" wanted none
    ≡ (reading timed_out_request (get_condition batch timed_out_request.status), none)
submit-listed_example =
    submit-listed batch memory (listing timed_out_request) "greeting" wanted none timed_out_request
      refl

submit-created_example :
    (new : ResolutionRequest) × ((submit batch memory listing_nothing "greeting" wanted none).0
      ≡ err error_request_in_progress)
    × (memory.stored "team" "job" (submit batch memory listing_nothing "greeting" wanted none).1
        ≡ some new)
    × (new.spec.parameters ≡ wanted.params)
    × (new.status.duck.conditions ≡ [])
    × (filter_by_selector labelled (some new) ≡ true)
unfolding submitted
submit-created_example =
    submit-created batch memory listing_nothing "greeting" wanted none (api not_found "not found") _
      refl refl

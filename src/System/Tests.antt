-- ===== src/System/Tests.antt =====
-- The whole way of one request, on concrete ones.
use resolution.Prelude.{◌≡◌, refl, none, some, [], ◌∷◌, find, ok, arith}
use resolution.Common.{reason_resolution_timed_out}
use resolution.Api.{condition_false, ResolutionRequest}
use resolution.Api.Lifecycle.{get_condition, is_done}
use resolution.Base64.{encode}
use resolution.Cluster.{marshal, with_status, merge_status}
use resolution.Cluster.Memory.{memory}
use resolution.Cluster.Slot.{Slot}
use resolution.Core.{reconcile_request, timeout_message}
use resolution.Core.Outcomes.{Results}
use resolution.Core.Timeout.{visits}
use resolution.Framework.{
  ResolvedResource, worker_wins, select, worker, request_ctx, reconcile, reconcile_listed, conclude,
  timeout_duration,
}
use resolution.Framework.Writes.{find_stored}
use resolution.Knative.Batch.{batch}
use resolution.Knative.Manager.{succeeded}
use resolution.Resource.Requester.{annotations, get_data, submit}
use resolution.Samples.{
  request_with, open_request, timed_out_request, language, greeting, reconciler, listing, split_key,
  wanted,
}
use resolution.System.RoundTrip.{get_data-encode, resolved-submit}
use resolution.System.Races.{resource-after_end, resource-empty}

abbrev hello : ResolvedResource
hello = greeting (104 ∷ 105 ∷ [])

abbrev cluster_after : ResolvedResource → ResolutionRequest → Slot
cluster_after resource old =
    (reconcile batch memory split_key (reconciler (ok resource)) worker_wins [] "team/job"
      (some old)).1

-- The stored request after the patch, and after the core controller's visit.
abbrev stored_after : ResolvedResource → ResolutionRequest → ResolutionRequest
stored_after resource old =
    with_status old
      (merge_status
        (record { payload = encode resource.content; annotations = resource.annotations })
        old.status)
      "7'"

abbrev final : ResolutionRequest
final = (reconcile_request batch 5 6 (stored_after hello open_request)).1

resolved-submit_example :
    ((submit batch memory (listing final) "greeting" wanted (cluster_after hello open_request)).0
      ≡ ok (record { req = final }))
    × (get_data (record { req = final }) ≡ ok (104 ∷ 105 ∷ []))
    × (find "language" (annotations (record { req = final })) ≡ some "en")
unfolding is_done encode reconcile reconcile_listed conclude select worker request_ctx
    timeout_duration marshal
resolved-submit_example =
    resolved-submit batch memory split_key (reconciler (ok hello)) worker_wins [] "team/job" "team"
      "job" open_request open_request (stored_after hello open_request)
      (stored_after hello open_request) hello (some open_request) language "language" "en" 5 6
      (listing final) "greeting" wanted refl refl refl refl refl refl refl (λ e. cc)
      (omega arith, (omega arith, tt)) refl refl refl refl

resource-after_end_example :
    (new : ResolutionRequest) × (find_stored batch memory open_request
        (cluster_after hello timed_out_request)
      ≡ some new)
    × (new.status.fields.payload ≡ encode (104 ∷ 105 ∷ []))
    × (get_condition batch new.status ≡ get_condition batch timed_out_request.status)
    × (visits batch ((5, 6) ∷ []) new ≡ new)
unfolding is_done select worker
resource-after_end_example =
    resource-after_end batch memory split_key (reconciler (ok hello)) worker_wins [] "team/job"
      "team" "job" open_request timed_out_request (stored_after hello timed_out_request) hello
      (some timed_out_request) refl refl refl refl refl refl refl ((5, 6) ∷ [])

resource-empty_example :
    Results batch
      (reconcile_request batch 60_000_001_001 60_000_001_002
        (stored_after (greeting []) open_request))
      none
      (succeeded condition_false reason_resolution_timed_out timeout_message)
unfolding is_done encode reconcile reconcile_listed conclude select worker request_ctx
    timeout_duration marshal
resource-empty_example =
    resource-empty batch memory split_key (reconciler (ok (greeting []))) worker_wins [] "team/job"
      "team" "job" open_request open_request (stored_after (greeting []) open_request) (greeting [])
      (some open_request) refl refl refl refl refl refl refl refl
      (stored_after (greeting []) open_request) 60_000_001_001 60_000_001_002 refl (omega arith)

get_data-encode_example :
    get_data (record { req = request_with [] none (encode (104 ∷ 105 ∷ 0 ∷ 255 ∷ [])) })
    ≡ ok (104 ∷ 105 ∷ 0 ∷ 255 ∷ [])
get_data-encode_example =
    get_data-encode (request_with [] none (encode (104 ∷ 105 ∷ 0 ∷ 255 ∷ [])))
      (104 ∷ 105 ∷ 0 ∷ 255 ∷ []) (omega arith, (omega arith, (omega arith, (omega arith, tt)))) refl

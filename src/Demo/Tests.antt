-- ===== src/Demo/Tests.antt =====
-- A request without parameters and the demo resolver.
use resolution.Prelude.{◌≡◌, refl, none, some, [], ok, utf8}
use resolution.Api.{ResolutionRequest}
use resolution.Api.Lifecycle.{is_done}
use resolution.Base64.{encode}
use resolution.Cluster.{marshal, with_status, merge_status}
use resolution.Cluster.Memory.{memory}
use resolution.Cluster.Slot.{Slot}
use resolution.Core.{reconcile_request}
use resolution.Demo.{demo_resolver, my_resolved_resource, pipeline, validate_params}
use resolution.Demo.Answers.{demo-submit}
use resolution.Framework.{
  Reconciler, worker_wins, select, worker, request_ctx, reconcile, reconcile_listed, conclude,
  timeout_duration,
}
use resolution.Knative.Batch.{batch}
use resolution.Resource.Requester.{get_data, submit}
use resolution.Samples.{open_request, listing, split_key, wanted}

abbrev bare_request : ResolutionRequest
bare_request = record open_request { spec = record { parameters = none } }

abbrev demo_reconciler : Reconciler
demo_reconciler = record {
  resolver = demo_resolver;
  lister = listing bare_request;
  config_store = none;
}

abbrev cluster_after : Slot
cluster_after =
    (reconcile batch memory split_key demo_reconciler worker_wins [] "team/job"
      (some bare_request)).1

abbrev stored : ResolutionRequest
stored =
    with_status bare_request
      (merge_status (record { payload = encode my_resolved_resource.content; annotations = none })
        bare_request.status)
      "7'"

abbrev final : ResolutionRequest
final = (reconcile_request batch 5 6 stored).1

demo-submit_example :
    ((submit batch memory (listing final) "demo" wanted cluster_after).0
      ≡ ok (record { req = final }))
    × (get_data (record { req = final }) ≡ ok (utf8 pipeline))
unfolding is_done encode reconcile reconcile_listed conclude select worker request_ctx
    timeout_duration marshal demo_resolver my_resolved_resource validate_params
demo-submit_example =
    demo-submit batch memory split_key demo_reconciler [] "team/job" "team" "job" bare_request
      bare_request stored stored (some bare_request) 5 6 (listing final) "demo" wanted refl refl
      refl refl refl refl refl refl refl refl

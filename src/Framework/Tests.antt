-- ===== src/Framework/Tests.antt =====
-- A resolver's controller on concrete requests.
use resolution.Prelude.{ℕ, ap, ◌≡◌, ◌≢◌, refl, Option, none, some, [], ◌∷◌, index, ok, err, sprintf}
use resolution.Common.{label_key_resolver_type, reason_resolution_failed}
use resolution.Common.Errors.{
  reason_in_chain, Error, plain, getting_resource, deadline_exceeded, with_reason, message,
  reason_error,
}
use resolution.Api.{Bytes, condition_false, ResolutionRequest}
use resolution.Api.Lifecycle.{get_condition, is_done}
use resolution.Base64.{encode}
use resolution.Cluster.{merge_status, marshal}
use resolution.Cluster.Memory.{memory}
use resolution.Cluster.Slot.{Slot}
use resolution.Framework.{
  on_err_chan, worker_wins, select, worker, request_ctx, reconcile, reconcile_listed, conclude,
  Reconciler,
}
use resolution.Framework.Writes.{find_stored}
use resolution.Framework.Outcomes.{
  IsFinal, reconcile-IsFinal, IsEligible, reconcile_writes, reconcile-failed, reconcile-resolved,
}
use resolution.Framework.Reasons.{worker-reason}
use resolution.Framework.Setup.{queue_name, filter_by_selector, validate_resolver}
use resolution.Framework.Setup.Routing.{filter-same_type}
use resolution.Knative.Batch.{batch}
use resolution.Knative.Manager.{succeeded}
use resolution.Samples.{
  labelled, open_request, timed_out_request, language, greeting, answering, listing, reconciler,
  split_key,
}

-- An error that carries a reason, which the client is not told.
abbrev refused : Error
refused = with_reason "Forbidden" (plain "no entry")

abbrev or_zero : Option ℕ → ℕ
or_zero none = 0
or_zero (some t) = t

abbrev payload_of : Slot → Bytes
payload_of none = []
payload_of (some rr) = rr.status.fields.payload

abbrev refused_answer : Error
refused_answer = getting_resource "Greeter" "team/job" refused

worker-reason_example :
    (sent : Error) × (worker (answering (err refused)) [] "team/job" open_request
      ≡ on_err_chan (some sent))
    × (reason_in_chain sent ≡ some "Forbidden")
    × ((reason_error sent).0 ≡ reason_resolution_failed)
unfolding reason_in_chain
worker-reason_example =
    worker-reason (answering (err refused)) [] "team/job" "Forbidden" open_request refused refl refl
      refl

reconcile-failed_example :
    (new : ResolutionRequest) × (find_stored batch memory open_request
        (reconcile batch memory split_key
          (reconciler (err refused))
          worker_wins
          []
          "team/job"
          (some open_request)).1
      ≡ some new)
    × (get_condition batch new.status
        ≡ some (
            succeeded condition_false
              (reason_error refused_answer).0
              (sprintf (message refused_answer))))
    × (new.status.fields ≡ open_request.status.fields)
    × (new.spec ≡ open_request.spec)
unfolding is_done worker select
reconcile-failed_example =
    reconcile-failed batch memory split_key (reconciler (err refused)) worker_wins [] "team/job"
      "team" "job" open_request (some open_request) refl refl refl refused_answer open_request refl
      refl refl (_, refl)

reconcile-resolved_example :
    (new : ResolutionRequest) × ((reconcile batch memory split_key
        (reconciler (ok (greeting (1 ∷ []))))
        worker_wins
        []
        "team/job"
        (some open_request)).0
      ≡ none)
    × (find_stored batch memory open_request
          (reconcile batch memory split_key
            (reconciler (ok (greeting (1 ∷ []))))
            worker_wins
            []
            "team/job"
            (some open_request)).1
        ≡ some new)
    × (new.status
        ≡ merge_status
            (record { payload = encode (1 ∷ []); annotations = some language })
            open_request.status)
    × (new.spec ≡ open_request.spec)
unfolding is_done worker select
reconcile-resolved_example =
    reconcile-resolved batch memory split_key (reconciler (ok (greeting (1 ∷ [])))) worker_wins []
      "team/job" "team" "job" open_request (some open_request) refl refl refl (greeting (1 ∷ []))
      open_request _ refl refl refl

reconcile-IsFinal_example :
    IsFinal
      (reconcile batch memory split_key
        (reconciler (err refused))
        worker_wins
        []
        "team/job"
        (some timed_out_request)).0
reconcile-IsFinal_example =
    reconcile-IsFinal batch memory split_key (reconciler (err refused)) worker_wins [] "team/job"
      (some timed_out_request)

reconcile_writes_example :
    (rr : ResolutionRequest) × IsEligible batch memory split_key
      (reconciler (ok (greeting (1 ∷ []))))
      worker_wins
      []
      "team/job"
      (some open_request)
      rr
unfolding reconcile reconcile_listed conclude select worker request_ctx is_done marshal encode
reconcile_writes_example =
    reconcile_writes batch memory split_key (reconciler (ok (greeting (1 ∷ [])))) worker_wins []
      "team/job" (some open_request)
      (λ e. let h : 65 ∷ 81 ∷ 61 ∷ 61 ∷ [] ≡ [] = ap payload_of e in cc)

filter-same_type_example :
    (index label_key_resolver_type labelled ≡ index label_key_resolver_type labelled)
    × (index label_key_resolver_type labelled ≡ index label_key_resolver_type labelled)
    × (index label_key_resolver_type labelled ≢ "")
unfolding validate_resolver filter_by_selector
filter-same_type_example =
    filter-same_type [] (answering (err refused)) (answering (err deadline_exceeded)) open_request
      refl refl refl refl

abbrev configured : Reconciler
configured = record {
  resolver = answering (err refused);
  lister = listing open_request;
  config_store = some (record { loaded = some (some (("fetch-timeout", "5s") ∷ [])) });
}

slashes : queue_name "my/resolver 2" ≡ "TektonResolverFramework.myresolver2"
unfolding queue_name
slashes = refl

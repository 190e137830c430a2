-- ===== src/Core/Tests.antt =====
-- The core controller on concrete requests.
use resolution.Prelude.{◌≡◌, refl, true, none, [], ◌∷◌, inl, inr, arith}
use resolution.Prelude.Int.{pos, ◌+ℤ◌, saturate64, wrap64, ◌-ℤ◌}
use resolution.Api.Lifecycle.{is_done, initialize_conditions}
use resolution.Core.{reconcile_request, reconcile_kind, delay, request_duration}
use resolution.Core.Outcomes.{
  deadline, SameButConditions, reconcile_request-SameButConditions, delay_exact,
}
use resolution.Core.Timeout.{requeue-is_done, visits, visits-is_done}
use resolution.Knative.Batch.{batch}
use resolution.Knative.Manager.{Manager}
use resolution.Samples.{open_request}

visits-is_done_example :
    is_done batch
      (visits batch ((1_500, 1_501) ∷ (60_000_001_001, 60_000_001_009) ∷ (2, 3) ∷ []) open_request)
    ≡ true
visits-is_done_example =
    visits-is_done batch ((1_500, 1_501) ∷ (60_000_001_001, 60_000_001_009) ∷ (2, 3) ∷ [])
      open_request (inr (inl (omega arith)))

requeue-is_done_example :
    is_done batch
      (reconcile_request batch 60_000_001_001 60_000_001_002
        (reconcile_request batch 1_500 1_600 open_request).1).1
    ≡ true
unfolding reconcile_request delay request_duration saturate64 wrap64 ◌-ℤ◌ ◌+ℤ◌ is_done
    initialize_conditions
requeue-is_done_example =
    requeue-is_done batch 1_500 1_600 60_000_001_001 60_000_001_002 open_request
      (pos 59_999_999_400) (omega arith) (omega arith) refl (omega arith)

reconcile_request-SameButConditions_example :
    SameButConditions open_request (reconcile_request batch 1_500 1_600 open_request).1
reconcile_request-SameButConditions_example =
    reconcile_request-SameButConditions batch 1_500 1_600 open_request

delay_exact_example : pos 1_600 +ℤ delay 1_600 open_request ≡ pos (deadline open_request)
delay_exact_example = delay_exact 1_600 open_request (omega arith) (omega arith)

reconcile_kind-nil : (k : Manager) → reconcile_kind k 1 2 none ≡ (none, none)
unfolding reconcile_kind
reconcile_kind-nil k = refl

-- ===== src/System/Protocol/Tests.antt =====
-- A request from its submission to its end, and an old copy that comes after it.
use mathlib.Core.List.Memᴰ.{head}
use mathlib.Core.Path.{subst}
use resolution.Prelude.{
  ℕ, String, ◌≡◌, refl, sym, ap, Bool, true, false, none, some, List, [], ◌∷◌, ok, ok_injective,
  arith,
}
use resolution.Prelude.Int.{saturate64}
use resolution.Api.{Condition, condition_true, ResolutionRequest}
use resolution.Api.Lifecycle.{is_done, initialize_conditions, mark_failed, mark_succeeded}
use resolution.Base64.{encode}
use resolution.Base64.RoundTrip.{AllBytes}
use resolution.Cluster.{marshal, with_status, merge_status, born}
use resolution.Cluster.Memory.{memory}
use resolution.Cluster.Slot.{Slot, clock}
use resolution.Core.{reconcile_request, request_duration}
use resolution.Framework.{
  ResolvedResource, on_resource_chan, worker_wins, select, worker, request_ctx, reconcile,
  reconcile_listed, conclude,
}
use resolution.Knative.Batch.{batch}
use resolution.Knative.Manager.{succeeded}
use resolution.Resource.Requester.{get_data, submit, submitted}
use resolution.Samples.{greeting, reconciler, listing, listing_nothing, split_key, wanted}
use resolution.System.Protocol.{Rules, Steps, core_copy}
use resolution.System.Protocol.Deadline.{late-HasEnded}
use resolution.System.Protocol.Ended.{HasEnded}
use resolution.System.Protocol.Outcomes.{Calls-HasEnded, calls-offered}
use resolution.System.Protocol.Refines.{
  view, Covers, Knows, Unretried, Calls, Calls-append, finish, call, gets, submits, resolves,
  visits,
}
use resolution.System.Protocol.Refines.Runs.{Calls-Steps}
use resolution.Visit.{
  attempt, update_status, visit_listed, visit, processed, write_status, synchronize,
}
use resolution.Visit.Retrying.{retrying}

abbrev hello : ResolvedResource
hello = greeting (104 ∷ 105 ∷ [])

abbrev rules : Rules Slot
rules = record {
  manager = batch;
  server = memory;
  support = retrying;
  offered = λ resource. resource ≡ hello;
  retries = false;
  deletions = false;
}

abbrev everyone : String → String → Bool
everyone ns name = true

-- Submitted, resolved, and completed.
abbrev requested : ResolutionRequest
requested =
    with_status (born (submitted "greeting" wanted) clock 1) (submitted "greeting" wanted).status
      "'"

abbrev resolved : ResolutionRequest
resolved =
    with_status requested
      (merge_status (record { payload = encode hello.content; annotations = hello.annotations })
        requested.status)
      "''"

abbrev completed : ResolutionRequest
completed = with_status resolved (processed batch memory retrying 5 6 resolved).status "'''"

lists_seen :
    (rr : ResolutionRequest) (seen : List ResolutionRequest)
    → Knows rules "team" "job" (rr ∷ seen) (listing rr)
lists_seen rr seen at_ns at_name r l en em = head (sym (ok_injective l))

-- The first attempt to update is accepted, so that it is the last one.
unretried :
    (s : ResolutionRequest) (now later : ℕ) (c : Slot)
    → let tries = attempt batch memory retrying s (core_copy rules now later s) in
      retrying.retry_update_conflicts tries c ≡ tries 0 c
      → Unretried rules "team" "job" (listing s) now later c
unretried s now later c h at_ns at_name original l =
    subst
      (λ o.
        let tries = attempt batch memory retrying o (core_copy rules now later o) in
        retrying.retry_update_conflicts tries c ≡ tries 0 c)
      (ok_injective l) h

submitting : Calls rules "team" "job" [] none [] (some requested)
unfolding submit submitted
submitting = call _ _ _ _ _ _ (submits [] none listing_nothing "greeting" wanted) (finish _ _)

offers_hello :
    (at_ns : String) (rr : ResolutionRequest) (resource : ResolvedResource)
    → worker
        (reconciler (ok hello)).resolver
        (request_ctx (reconciler (ok hello)) at_ns [])
        "team/job"
        rr
      ≡ on_resource_chan resource
    → resource ≡ hello
unfolding worker
offers_hello at_ns rr resource e = cc

resolving : Calls rules "team" "job" [] (some requested) (resolved ∷ []) (some resolved)
unfolding reconcile reconcile_listed conclude select worker request_ctx marshal is_done submitted
resolving =
    call _ _ _ _ _ _
      (resolves [] (some requested) split_key (reconciler (ok hello)) worker_wins [] "team/job"
        offers_hello)
      (call _ _ _ _ _ _ (gets [] (some resolved) resolved refl) (finish _ _))

completing :
    Calls rules "team" "job"
      (resolved ∷ [])
      (some resolved)
      (completed ∷ resolved ∷ [])
      (some completed)
unfolding visit visit_listed synchronize update_status attempt write_status reconcile_request
    is_done initialize_conditions mark_succeeded submitted encode
completing =
    call _ _ _ _ _ _
      (visits (resolved ∷ []) (some resolved) split_key everyone (listing resolved) 5 6 "team/job"
        (lists_seen resolved []) (λ never. unretried resolved 5 6 (some resolved) refl))
      (call _ _ _ _ _ _ (gets (resolved ∷ []) (some completed) completed refl) (finish _ _))

resolved_run : Calls rules "team" "job" [] none (resolved ∷ []) (some resolved)
resolved_run = Calls-append rules "team" "job" _ _ _ _ _ _ submitting resolving

whole_run : Calls rules "team" "job" [] none (completed ∷ resolved ∷ []) (some completed)
whole_run = Calls-append rules "team" "job" _ _ _ _ _ _ resolved_run completing

abbrev after_late : Slot
after_late =
    (reconcile batch memory split_key (reconciler (ok hello)) worker_wins [] "team/job"
      (some completed)).1

-- The resolver's controller, whose lister still lists the request as it was, patches its data once more.
late_data :
    Calls rules "team" "job"
      (completed ∷ resolved ∷ [])
      (some completed)
      (completed ∷ resolved ∷ [])
      after_late
late_data =
    call _ _ _ _ _ _
      (resolves (completed ∷ resolved ∷ []) (some completed) split_key (reconciler (ok hello))
        worker_wins [] "team/job" offers_hello)
      (finish _ _)

Calls-Steps_example :
    (more : List ResolutionRequest) × Covers rules "team" "job" more (completed ∷ resolved ∷ [])
    × Steps rules (view rules "team" "job" [] none) (view rules "team" "job" more (some completed))
Calls-Steps_example =
    Calls-Steps rules "team" "job" [] [] (completed ∷ resolved ∷ []) none (some completed) whole_run
      (λ s m. m)

Calls-HasEnded_example :
    (new : ResolutionRequest) × (memory.stored "team" "job" after_late ≡ some new)
    × HasEnded rules (succeeded condition_true "" "") new
unfolding visit visit_listed synchronize update_status attempt write_status reconcile_request
    is_done initialize_conditions mark_succeeded submitted encode
Calls-HasEnded_example =
    Calls-HasEnded rules "team" "job" (succeeded condition_true "" "") refl refl refl none
      (some completed) after_late (completed ∷ resolved ∷ []) (completed ∷ resolved ∷ []) completed
      whole_run refl (record { condition = refl; observed = refl }) late_data

calls-offered_example :
    (resource : ResolvedResource) × (resource ≡ hello)
    × (get_data (record { req = completed }) ≡ ok resource.content)
unfolding visit visit_listed synchronize update_status attempt write_status reconcile_request
    is_done initialize_conditions mark_succeeded submitted encode submit
calls-offered_example =
    calls-offered rules "team" "job"
      (λ resource e empty. some_content (ap (λ r. r.content) e) empty)
      (λ resource e. subst (λ r. AllBytes r.content) (sym e) (omega arith, (omega arith, tt))) none
      (some completed) (completed ∷ resolved ∷ []) completed (record { req = completed })
      (listing completed) "greeting" wanted refl whole_run (head refl) refl refl
  where
    some_content : {bs : List ℕ} → bs ≡ 104 ∷ 105 ∷ [] → bs ≡ [] → ⊥
    some_content e n = cc

-- Nothing was resolved in time; afterwards comes a visit with the copy that was read before.
waiting : Calls rules "team" "job" [] none (requested ∷ []) (some requested)
unfolding submitted
waiting =
    Calls-append rules "team" "job" _ _ _ _ _ _ submitting
      (call _ _ _ _ _ _ (gets [] (some requested) requested refl) (finish _ _))

abbrev expired : Slot
expired =
    (visit batch memory retrying split_key everyone (listing requested) 1_700_000_060_000_000_001
      1_700_000_060_000_000_001 "team/job" (some requested)).1

abbrev after_expiry : Slot
after_expiry =
    (reconcile batch memory split_key (reconciler (ok hello)) worker_wins [] "team/job" expired).1

late-HasEnded_example :
    (c : Condition) × (batch.is_unknown (some c) ≡ false)
    × ((new : ResolutionRequest) × (memory.stored "team" "job" expired ≡ some new)
        × HasEnded rules c new)
    × ((final : ResolutionRequest) × (memory.stored "team" "job" after_expiry ≡ some final)
        × HasEnded rules c final)
unfolding submitted update_status attempt write_status reconcile_request is_done
    initialize_conditions request_duration saturate64 mark_failed
late-HasEnded_example =
    late-HasEnded rules "team" "job" none (some requested) after_expiry (requested ∷ [])
      (requested ∷ []) requested split_key everyone (listing requested) 1_700_000_060_000_000_001
      1_700_000_060_000_000_001 "team/job" refl refl waiting refl refl refl refl
      (lists_seen requested [])
      (unretried requested 1_700_000_060_000_000_001 1_700_000_060_000_000_001 (some requested)
        refl)
      refl (omega arith) refl
      (call _ _ _ _ _ _
        (resolves (requested ∷ []) expired split_key (reconciler (ok hello)) worker_wins []
          "team/job" offers_hello)
        (finish _ _))

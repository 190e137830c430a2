-- ===== src/Framework/Selection.antt =====
-- Which case the select of resolve() can take, by the time at which the goroutine sends.
use resolution.Prelude.{ℕ, String, ◌≡◌, refl, false, Option, some, Result, ok, sprintf}
use resolution.Prelude.Int.{ℤ, pos, ◌≤ℤ◌}
use resolution.Common.{reason_resolution_failed}
use resolution.Common.Errors.{Error, deadline_exceeded, reason_error, message}
use resolution.Common.Context.{Ctx}
use resolution.Api.{condition_false, ResolutionRequest}
use resolution.Api.Lifecycle.{get_condition, is_done}
use resolution.Cluster.{ApiServer}
use resolution.Knative.Manager.{Manager, succeeded}
use resolution.Framework.{
  Choice, worker_wins, context_ends, Reconciler, select, request_ctx, timeout_duration, reconcile,
}
use resolution.Framework.Writes.{find_stored, fetched, Accepts}
use resolution.Framework.Outcomes.{error_of, heard, reconcile-failed}

-- `finish` is when the goroutine would send, if ever, and `timeout` the duration of its context. The
-- select takes either case where both are ready.
pub data Possible (finish : Option ℕ) (timeout : ℤ) : Choice → Type 0 where
  sent_in_time : (t : ℕ) → finish ≡ some t → pos t ≤ℤ timeout → Possible finish timeout worker_wins
  deadline_reached :
      ((t : ℕ) → finish ≡ some t → timeout ≤ℤ pos t)
      → Possible finish timeout (context_ends deadline_exceeded)

-- No answer comes by the end of the timeout.
abbrev pub IsLate : Option ℕ → ℤ → Type 0
IsLate finish timeout = (t : ℕ) → finish ≡ some t → pos t ≤ℤ timeout → ⊥

-- Then the context's end is heard, however the answer would have read.
Possible-late :
    (finish : Option ℕ) (timeout : ℤ) (choice : Choice)
    → IsLate finish timeout
    → Possible finish timeout choice
    → choice ≡ context_ends deadline_exceeded
Possible-late finish timeout worker_wins late (sent_in_time t e h) = absurd (late t e h)
Possible-late finish timeout _ late (deadline_reached h) = refl

module _ {C : Type 0} (k : Manager) (a : ApiServer C)
    (split : String → Result Error (String × String)) (r : Reconciler) (choice : Choice) (ctx : Ctx)
    (key ns name : String) (rr : ResolutionRequest) (c : C) where
  -- A request whose resolver does not answer within its timeout fails with the context's message, if
  -- the request is not done by then and the server accepts the update.
  pub reconcile-timed_out :
      (finish : Option ℕ) (latest : ResolutionRequest)
      → split key ≡ ok (ns, name)
      → r.lister ns name ≡ ok rr
      → is_done k rr ≡ false
      → IsLate finish (timeout_duration r.resolver (request_ctx r ns ctx))
      → Possible finish (timeout_duration r.resolver (request_ctx r ns ctx)) choice
      → fetched k a rr c ≡ ok latest
      → is_done k latest ≡ false
      → Accepts k a rr deadline_exceeded latest c
      → (new : ResolutionRequest) × (find_stored k a rr (reconcile k a split r choice ctx key c).1
          ≡ some new)
        × (get_condition k new.status
            ≡ some (succeeded condition_false reason_resolution_failed "context deadline exceeded"))
        × (new.status.fields ≡ latest.status.fields)
  unfolding message reason_error sprintf select
  reconcile-timed_out finish latest keyed listed unfinished late possible g d ac =
      let waited = Possible-late finish _ choice late possible in
      let (new, at, failed, same, _) =
        reconcile-failed k a split r choice ctx key ns name rr c keyed listed unfinished
          deadline_exceeded latest (heard_deadline waited) g d ac in
      (new, at, failed, same)
    where
      heard_deadline :
          choice ≡ context_ends deadline_exceeded
          → error_of (heard r choice ctx ns key rr) ≡ some deadline_exceeded
      heard_deadline e = rw e refl

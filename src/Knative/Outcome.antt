-- ===== src/Knative/Outcome.antt =====
-- The non-nil errors that a reconciler returns to Knative's controller, which tells four kinds apart.
use resolution.Prelude.{String, Option}
use resolution.Prelude.Int.{ℤ}
use resolution.Common.Errors.{Error}

pub data Outcome : Type 0 where
  -- An error that is retried with backoff.
  failed : Error → Outcome
  -- controller.NewPermanentError: not retried. The error inside may be nil.
  permanent : Option Error → Outcome
  -- controller.NewRequeueAfter
  requeue_after : ℤ → Outcome
  -- controller.NewSkipKey
  skip_key : String → Outcome

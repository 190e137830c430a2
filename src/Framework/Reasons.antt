-- ===== src/Framework/Reasons.antt =====
-- Which reason is recorded for the error of a resolver.
use resolution.Prelude.{String, ◌≡◌, refl, none, some, err, arith}
use resolution.Common.{reason_resolution_failed}
use resolution.Common.Errors.{Error, reason_error, reason_in_chain, getting_resource}
use resolution.Common.Context.{Ctx}
use resolution.Api.{ResolutionRequest}
use resolution.Framework.{Resolver, worker, on_err_chan}

-- The error that the goroutine sends has no reason of its own, whichever error the resolver returned:
-- a reason that the resolver gave stands below the outermost error, where ReasonError does not look.
reason_error-worker :
    (r : Resolver) (ctx : Ctx) (key : String) (rr : ResolutionRequest) (e : Error)
    → worker r ctx key rr ≡ on_err_chan (some e)
    → reason_error e ≡ (reason_resolution_failed, e)
unfolding worker reason_error
reason_error-worker r ctx key rr e h = ground arith

-- A resolver that accepts the parameters and returns an error with a reason of its own, wrapped or
-- not: what the goroutine sends has that reason in its chain, and is recorded under another.
pub worker-reason :
    (r : Resolver) (ctx : Ctx) (key reason : String) (rr : ResolutionRequest) (e : Error)
    → r.validate_params ctx rr.spec.parameters ≡ none
    → r.resolve ctx rr.spec.parameters ≡ err e
    → reason_in_chain e ≡ some reason
    → (sent : Error) × (worker r ctx key rr ≡ on_err_chan (some sent))
      × (reason_in_chain sent ≡ some reason)
      × ((reason_error sent).0 ≡ reason_resolution_failed)
unfolding worker reason_error reason_in_chain
worker-reason r ctx key reason rr e v f h =
    (getting_resource (r.get_name ctx) key e, ground arith, h, refl)

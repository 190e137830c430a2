-- ===== src/Generated/Reconcile.antt =====
-- Reconcile of reconciler.go.
use Prim.Native.String.{◌++◌ as append}
use resolution.Prelude.{
  String, Bool, not, Option, none, some, Result, ok, err, quote, if◌then◌else◌,
}
use resolution.Common.Errors.{Error, wrapped, message}
use resolution.Common.Context.{Ctx}
use resolution.Api.{ResolutionRequest}
use resolution.Cluster.{ApiServer, Json}
use resolution.Knative.Manager.{Manager}
use resolution.Knative.Outcome.{Outcome, failed, permanent, requeue_after, skip_key}
use resolution.Visit.{Support, update_status}
use resolution.Generated.{
  Event, reconciler_event, wrapping, other, Session, record_event, DoReconcile, ReconcilerImpl,
  State, Target, do_reconcile_kind, do_finalize_kind, do_observe_kind, unknown, new_state,
  is_not_leader_nor_observer, reconcile_method_for,
}
use resolution.Generated.Finalizers.{
  event_type_warning, set_finalizer_if_finalizer, clear_finalizer,
}

-- err.Error() of an error that is neither a SkipKey nor a RequeueAfter
abbrev outcome_text : Outcome → String
outcome_text (failed e) = message e
outcome_text (permanent (some e)) = message e
outcome_text (permanent none) = ""
outcome_text (requeue_after d) = ""
outcome_text (skip_key key) = ""

module _ {C : Type 0} where
  -- The report of the event, if any, and what is returned of it.
  unfoldable pub report : Option Event → Session C → Option Event × Session C
  report none s = (none, s)
  report (some (reconciler_event t r m)) s = (none, record_event t r m s)
  report (some (wrapping t r m e)) s = (some (wrapping t r m e), record_event t r m s)
  report (some (other (skip_key key))) s = (some (other (skip_key key)), s)
  report (some (other (requeue_after d))) s = (some (other (requeue_after d)), s)
  report (some (other (failed e))) s = (
    some (other (failed e)),
    record_event event_type_warning "InternalError" (outcome_text (failed e)) s,
  )
  report (some (other (permanent e))) s = (
    some (other (permanent e)),
    record_event event_type_warning "InternalError" (outcome_text (permanent e)) s,
  )

  -- What follows the update of the status
  abbrev pub after_update :
      ResolutionRequest → Option Event → Session C → Option Error × C → Option Event × Session C
  after_update resource event s (none, c) = report event (record s { cluster = c })
  after_update resource event s (some e, c) = (
    some (other (failed e)),
    record_event event_type_warning "UpdateFailed"
        (append "Failed to update status for "
          (append (quote resource.object_meta.name) (append ": " (message e))))
        (record s { cluster = c }),
  )

module _ {C D : Type 0} (k : Manager) (a : ApiServer C) (lib : Support k C)
    (patch : String → String → Json → C → Result Error ResolutionRequest × C)
    (split : String → Result Error (String × String)) (is_leader_for : String → String → Bool)
    (r : ReconcilerImpl C D) where
  -- From the copy that the method left to the end.
  unfoldable pub synchronize_status :
      State
      → ResolutionRequest
      → Option Event
      → ResolutionRequest
      → Session C
      → Option Event × Session C
  unfolding report
  synchronize_status st original event resource s =
      if r.skip_status_updates
      then report event s
      else if lib.same_status original.status resource.status
      then report event s
      else if not st.is_leader
      then report event s
      else after_update resource event s (update_status k a lib original resource s.cluster)

  -- PreProcessReconcile and PostProcessReconcile, unless the status is not the reconciler's
  abbrev pub pre : ResolutionRequest → ResolutionRequest
  pre resource = if r.skip_status_updates then resource else lib.pre_process resource

  abbrev post : ResolutionRequest → ResolutionRequest → ResolutionRequest
  post original resource =
      if r.skip_status_updates then resource else lib.post_process resource original

  abbrev pub reconciled :
      State
      → ResolutionRequest
      → (Option Event × ResolutionRequest) × Session C
      → Option Event × Session C
  reconciled st original ((event, resource), s) =
      synchronize_status st original event (post original resource) s

  -- The three methods, each with what is around it
  abbrev prepared :
      State
      → Ctx
      → DoReconcile C
      → ResolutionRequest
      → Result Error ResolutionRequest × Session C
      → Option Event × Session C
  prepared st ctx f original (err e, s) =
      (some (other (failed (wrapped "failed to set finalizers: " e))), s)
  prepared st ctx f original (ok resource, s) = reconciled st original (f ctx (pre resource) s)

  abbrev cleared :
      State
      → ResolutionRequest
      → Option Event
      → Result Error ResolutionRequest × Session C
      → Option Event × Session C
  cleared st original event (err e, s) =
      (some (other (failed (wrapped "failed to clear finalizers: " e))), s)
  cleared st original event (ok resource, s) = synchronize_status st original event resource s

  abbrev finalized :
      State
      → ResolutionRequest
      → (Option Event × ResolutionRequest) × Session C
      → Option Event × Session C
  finalized st original ((event, resource), s) =
      cleared st original event (clear_finalizer patch r resource event s)

  abbrev pub observed :
      State
      → ResolutionRequest
      → (Option Event × ResolutionRequest) × Session C
      → Option Event × Session C
  observed st original ((event, resource), s) = synchronize_status st original event resource s

  -- The switch over the method
  unfoldable pub run_target :
      Target C → State → Ctx → ResolutionRequest → Session C → Option Event × Session C
  unfolding synchronize_status
  run_target (do_reconcile_kind f) st ctx original s =
      prepared st ctx f original (set_finalizer_if_finalizer patch r original s)
  run_target (do_finalize_kind f) st ctx original s = finalized st original (f ctx original s)
  run_target (do_observe_kind f) st ctx original s = observed st original (f ctx original s)
  run_target unknown st ctx original s = synchronize_status st original none original s

  abbrev pub observe_deletion : Ctx → State → Session C → Option Event × Session C
  observe_deletion ctx st s = elim r.reconciler.observe_deletion [
    | none ↦ (none, s)
    | some f ↦ f ctx st.namespace st.name s
  ]

  abbrev pub configured : Ctx → Ctx
  configured ctx = elim r.config_store [ none ↦ ctx | some to_context ↦ to_context ctx ]

  -- With the context, the object of the key
  unfoldable pub reconcile_state : State → Ctx → Session C → Option Event × Session C
  unfolding run_target
  reconcile_state st ctx s = elim (r.lister st.namespace st.name) [
    | err e ↦ if lib.is_not_found e then observe_deletion ctx st s else (some (other (failed e)), s)
    | ok original ↦ run_target (reconcile_method_for st r.reconciler original) st ctx original s
  ]

  -- From what newState returns
  abbrev pub started : Ctx → String → Session C → Result Error State → Option Event × Session C
  started ctx key s (err e) = (none, s)
  started ctx key s (ok st) =
      if is_not_leader_nor_observer st
      then (some (other (skip_key key)), s)
      else reconcile_state st (configured ctx) s

  -- Reconcile
  unfoldable pub reconcile : Ctx → String → Session C → Option Event × Session C
  reconcile ctx key s = started ctx key s (new_state split is_leader_for key r.reconciler)

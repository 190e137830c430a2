-- ===== src/Api/Lifecycle/Marks.antt =====
-- What the marks of resolution_request_lifecycle.go leave to be read, by the laws of the manager.
use resolution.Prelude.{String, ◌≡◌, refl, true, false, not, none, some, sprintf}
use resolution.Common.{reason_resolution_in_progress}
use resolution.Api.{
  condition_true, condition_false, condition_unknown, ResolutionRequestStatus, ResolutionRequest,
}
use resolution.Api.Lifecycle.{
  get_condition, is_done, has_started, initialize_conditions, mark_failed, mark_succeeded,
  mark_in_progress,
}
use resolution.Knative.Manager.{Manager, succeeded, or_unknown}

module _ (k : Manager) (s : ResolutionRequestStatus) where
  pub get-mark_succeeded :
      get_condition k (mark_succeeded k s) ≡ some (succeeded condition_true "" "")
  unfolding mark_succeeded
  get-mark_succeeded = k.get-mark_true _

  pub get-mark_failed :
      (reason message : String)
      → get_condition k (mark_failed k reason message s)
        ≡ some (succeeded condition_false reason (sprintf message))
  unfolding mark_failed
  get-mark_failed reason message = k.get-mark_false reason message _

  pub get-mark_in_progress :
      (message : String)
      → get_condition k (mark_in_progress k message s)
        ≡ some (succeeded condition_unknown reason_resolution_in_progress (sprintf message))
  unfolding mark_in_progress
  get-mark_in_progress message = k.get-mark_unknown _ message _

  pub fields-mark_failed :
      (reason message : String) → (mark_failed k reason message s).fields ≡ s.fields
  unfolding mark_failed
  fields-mark_failed reason message = refl

  get-initialize_conditions :
      get_condition k (initialize_conditions k s) ≡ some (or_unknown (get_condition k s))
  unfolding initialize_conditions
  get-initialize_conditions = k.get-initialize _

module _ (k : Manager) (rr : ResolutionRequest) where
  pub is_done-true :
      (reason message : String)
      → get_condition k rr.status ≡ some (succeeded condition_true reason message)
      → is_done k rr ≡ true
  unfolding is_done
  is_done-true r m h = rw (h, k.is_unknown-some)

  pub is_done-false :
      (reason message : String)
      → get_condition k rr.status ≡ some (succeeded condition_false reason message)
      → is_done k rr ≡ true
  unfolding is_done
  is_done-false r m h = rw (h, k.is_unknown-some)

  pub is_done-unknown :
      (reason message : String)
      → get_condition k rr.status ≡ some (succeeded condition_unknown reason message)
      → is_done k rr ≡ false
  unfolding is_done
  is_done-unknown r m h = rw (h, k.is_unknown-some)

  is_done-none : get_condition k rr.status ≡ none → is_done k rr ≡ false
  unfolding is_done
  is_done-none h = rw (h, k.is_unknown-none)

  -- A request has either started or is done, and never both.
  is_done-not-has_started : is_done k rr ≡ not (has_started k rr)
  unfolding is_done has_started
  is_done-not-has_started = refl

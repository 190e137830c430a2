-- ===== src/Generated/Finalizers.antt =====
-- The finalizers: updateFinalizersFiltered, setFinalizerIfFinalizer and clearFinalizer.
pub mod Filtered
use Prim.Native.String.{◌++◌ as append}
use resolution.Prelude.{
  String, Bool, true, false, Option, none, some, is_none, List, [], ◌∷◌, ◌++◌, Result, ok, err,
  ◌==◌, quote, if◌then◌else◌,
}
use resolution.Common.Errors.{Error, message}
use resolution.Api.{ResolutionRequest}
use resolution.Cluster.{Json, text, array, object, end, member}
use resolution.Generated.{
  Event, reconciler_event, wrapping, other, Session, record_event, ReconcilerImpl,
}
use resolution.Generated.Sets.{has, insert, delete, new_string, list}

abbrev pub with_finalizers : ResolutionRequest → List String → ResolutionRequest
with_finalizers rr finalizers = record rr {
  object_meta = record rr.object_meta { finalizers = finalizers };
}

-- The finalizers to be stored, if there is something to update.
unfoldable pub next_finalizers : String → List String → List String → Option (List String)
next_finalizers finalizer_name existing desired =
    if has (new_string desired) finalizer_name
    then if has (new_string existing) finalizer_name
      then none
      else some (existing ++ finalizer_name ∷ [])
    else if has (new_string existing) finalizer_name
    then some (list (delete (new_string existing) finalizer_name))
    else none

-- mergePatch, and json.Marshal of it, which has nothing to fail on
abbrev pub finalizer_patch : List String → String → Json
finalizer_patch finalizers version = object (
    member "metadata"
      (object
        (member "finalizers" (array finalizers) (member "resourceVersion" (text version) end)))
      end)

unfoldable pub marshal_finalizers : List String → String → Result Error Json
marshal_finalizers finalizers version = ok (finalizer_patch finalizers version)

-- corev1.EventTypeNormal
abbrev event_type_normal : String
event_type_normal = "Normal"

abbrev pub event_type_warning : String
event_type_warning = "Warning"

-- clearFinalizer's test of the event: none, or a ReconcilerEvent of type Normal
abbrev pub is_clean : Option Event → Bool
is_clean none = true
is_clean (some (reconciler_event event_type r m)) = event_type == event_type_normal
is_clean (some (wrapping event_type r m e)) = event_type == event_type_normal
is_clean (some (other o)) = false

module _ {C D : Type 0} (patch : String → String → Json → C → Result Error ResolutionRequest × C)
    (r : ReconcilerImpl C D) where
  -- What is recorded of a patch and returned from it.
  abbrev pub recorded_patch :
      ResolutionRequest
      → Session C
      → Result Error ResolutionRequest × C
      → Result Error ResolutionRequest × Session C
  recorded_patch resource s (ok updated, c) = (
    ok updated,
    record_event event_type_normal "FinalizerUpdate"
        (append "Updated " (append (quote resource.object_meta.name) " finalizers"))
        (record s { cluster = c }),
  )
  recorded_patch resource s (err e, c) = (
    err e,
    record_event event_type_warning "FinalizerUpdateFailed"
        (append "Failed to update finalizers for "
          (append (quote resource.object_meta.name) (append ": " (message e))))
        (record s { cluster = c }),
  )

  -- The patch of the finalizers
  unfoldable pub send_finalizers :
      ResolutionRequest
      → ResolutionRequest
      → List String
      → Session C
      → Result Error ResolutionRequest × Session C
  unfolding marshal_finalizers
  send_finalizers existing resource finalizers s =
      elim (marshal_finalizers finalizers existing.object_meta.resource_version) [
        | err e ↦ (err e, s)
        | ok doc ↦
            recorded_patch resource s
              (patch resource.object_meta.namespace resource.object_meta.name doc s.cluster)
      ]

  abbrev pub sent :
      ResolutionRequest
      → ResolutionRequest
      → Session C
      → Option (List String)
      → Result Error ResolutionRequest × Session C
  sent existing resource s none = (ok resource, s)
  sent existing resource s (some finalizers) = send_finalizers existing resource finalizers s

  -- updateFinalizersFiltered, from what the lister answers
  abbrev pub filtered :
      ResolutionRequest
      → Session C
      → Result Error ResolutionRequest
      → Result Error ResolutionRequest × Session C
  filtered resource s (err e) = (err e, s)
  filtered resource s (ok existing) = sent existing resource s (
      next_finalizers r.finalizer_name existing.object_meta.finalizers
        resource.object_meta.finalizers)

  unfoldable pub update_finalizers_filtered :
      ResolutionRequest → Session C → Result Error ResolutionRequest × Session C
  update_finalizers_filtered resource s =
      filtered resource s (r.lister resource.object_meta.namespace resource.object_meta.name)

  -- The finalizer is marked on a request that is not being deleted.
  abbrev pub marked : ResolutionRequest → ResolutionRequest
  marked resource =
      let finalizers = new_string resource.object_meta.finalizers in
      with_finalizers resource (
        list (
          if is_none resource.object_meta.deletion_timestamp
          then insert finalizers r.finalizer_name
          else finalizers))

  -- setFinalizerIfFinalizer
  unfoldable pub set_finalizer_if_finalizer :
      ResolutionRequest → Session C → Result Error ResolutionRequest × Session C
  set_finalizer_if_finalizer resource s =
      if is_none r.reconciler.finalize_kind
      then (ok resource, s)
      else update_finalizers_filtered (marked resource) s

  abbrev pub unmarked : ResolutionRequest → Option Event → ResolutionRequest
  unmarked resource event =
      let finalizers = new_string resource.object_meta.finalizers in
      with_finalizers resource
        (list (if is_clean event then delete finalizers r.finalizer_name else finalizers))

  -- clearFinalizer
  unfoldable pub clear_finalizer :
      ResolutionRequest → Option Event → Session C → Result Error ResolutionRequest × Session C
  clear_finalizer resource event s =
      if is_none r.reconciler.finalize_kind
      then (ok resource, s)
      else if is_none resource.object_meta.deletion_timestamp
      then (ok resource, s)
      else update_finalizers_filtered (unmarked resource event) s

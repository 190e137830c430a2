-- ===== src/Generated/Finalizers/Filtered.antt =====
-- Which finalizers a reconciler adds and removes.
use mathlib.Core.Path.{subst}
use resolution.Prelude.{
  String, ◌≡◌, refl, sym, ap, ◌∙◌, true, false, not, ◌&&◌, inl, inr, Bool-cases, Option, none, some,
  is_none, List, [], ◌∷◌, Result, ok, err, ok_injective, ◌==◌, eq_iff, eq_refl, arith,
  if◌then◌else◌,
}
use resolution.Common.Errors.{Error}
use resolution.Api.{ResolutionRequest}
use resolution.Cluster.{Json}
use resolution.Generated.{Event, Session, ReconcilerImpl}
use resolution.Generated.Sets.{
  has, insert, delete, new_string, has-insert, has-delete, has-new_string, has-list, has-append,
}
use resolution.Generated.Finalizers.{
  next_finalizers, finalizer_patch, is_clean, recorded_patch, send_finalizers, sent, filtered,
  marked, unmarked, update_finalizers_filtered, set_finalizer_if_finalizer, clear_finalizer,
}

-- The finalizers that are stored afterwards.
abbrev pub or_kept : List String → Option (List String) → List String
or_kept existing none = existing
or_kept existing (some new) = new

-- Of the stored finalizers, updateFinalizersFiltered changes none but the reconciler's own, which is
-- there afterwards exactly if it is desired.
pub has-next_finalizers :
    (finalizer_name : String) (existing desired : List String) (x : String)
    → has (or_kept existing (next_finalizers finalizer_name existing desired)) x
      ≡ (if finalizer_name == x then has desired x else has existing x)
unfolding next_finalizers
has-next_finalizers f existing desired x = ground (
  arith,
  has-new_string desired f,
  has-new_string existing f,
  has-append existing (f ∷ []) x,
  has-list (delete (new_string existing) f) x,
  has-delete (new_string existing) f x,
  has-new_string existing x,
  eq_iff f x,
)

module _ {C D : Type 0} (patch : String → String → Json → C → Result Error ResolutionRequest × C)
    (r : ReconcilerImpl C D)
    (patched : (ns name version : String) (finalizers : List String) (u : ResolutionRequest) (c : C)
      → (patch ns name (finalizer_patch finalizers version) c).0 ≡ ok u
      → u.object_meta.finalizers ≡ finalizers) where
  recorded-ok :
      (resource u : ResolutionRequest) (s : Session C) (x : Result Error ResolutionRequest × C)
      → (recorded_patch patch r resource s x).0 ≡ ok u
      → x.0 ≡ ok u
  recorded-ok resource u s (ok u', c) h = h
  recorded-ok resource u s (err e, c) h = cc

  own_finalizer :
      (existing desired : List String) (o : Option (List String))
      → next_finalizers r.finalizer_name existing desired ≡ o
      → has (or_kept existing o) r.finalizer_name ≡ has desired r.finalizer_name
  own_finalizer existing desired o e =
      ap (λ x. has (or_kept existing x) r.finalizer_name) (sym e)
      ∙ has-next_finalizers r.finalizer_name existing desired r.finalizer_name
      ∙ rw (eq_refl r.finalizer_name) refl

  sent-has :
      (resource existing u : ResolutionRequest) (s : Session C) (o : Option (List String))
      → next_finalizers r.finalizer_name existing.object_meta.finalizers
          resource.object_meta.finalizers
        ≡ o
      → (sent patch r existing resource s o).0 ≡ ok u
      → has u.object_meta.finalizers r.finalizer_name
        ≡ has resource.object_meta.finalizers r.finalizer_name
  unfolding send_finalizers
  sent-has resource existing u s none e h =
      ap (λ x. has x.object_meta.finalizers r.finalizer_name) (sym (ok_injective h))
  sent-has resource existing u s (some finalizers) e h =
      ap (λ x. has x r.finalizer_name) (patched _ _ _ finalizers u _ (recorded-ok resource u s _ h))
      ∙ own_finalizer _ _ (some finalizers) e

  filtered-has :
      (resource u : ResolutionRequest) (s : Session C) (x : Result Error ResolutionRequest)
      → (filtered patch r resource s x).0 ≡ ok u
      → has u.object_meta.finalizers r.finalizer_name
        ≡ has resource.object_meta.finalizers r.finalizer_name
  filtered-has resource u s (err e) h = cc
  filtered-has resource u s (ok existing) h = sent-has resource existing u s _ refl h

  has-marked :
      (resource : ResolutionRequest)
      → is_none resource.object_meta.deletion_timestamp ≡ true
      → has (marked patch r resource).object_meta.finalizers r.finalizer_name ≡ true
  has-marked resource alive = rw alive (
      has-list (insert (new_string resource.object_meta.finalizers) r.finalizer_name)
        r.finalizer_name
      ∙ has-insert (new_string resource.object_meta.finalizers) r.finalizer_name r.finalizer_name
      ∙ rw (eq_refl r.finalizer_name) refl)

  has-unmarked :
      (resource : ResolutionRequest) (event : Option Event)
      → has (unmarked patch r resource event).object_meta.finalizers r.finalizer_name
        ≡ (not (is_clean event) && has resource.object_meta.finalizers r.finalizer_name)
  has-unmarked resource event = elim (Bool-cases (is_clean event)) [
    | inl clean ↦ rw clean (
        has-list (delete (new_string resource.object_meta.finalizers) r.finalizer_name)
          r.finalizer_name
        ∙ has-delete (new_string resource.object_meta.finalizers) r.finalizer_name r.finalizer_name
        ∙ rw (eq_refl r.finalizer_name) refl)
    | inr failed ↦ rw failed (
        has-list (new_string resource.object_meta.finalizers) r.finalizer_name
        ∙ has-new_string resource.object_meta.finalizers r.finalizer_name)
  ]

  module _ (finalizes : is_none r.reconciler.finalize_kind ≡ false) (resource u : ResolutionRequest)
      (s : Session C) where
    -- A reconciler with a FinalizeKind reconciles no request without its finalizer on it: for a
    -- request that is not being deleted, when setFinalizerIfFinalizer returns no error, the request
    -- that it returns has the finalizer, where an accepted patch answers the object with the finalizers
    -- of the patch.
    pub set_finalizer-has :
        is_none resource.object_meta.deletion_timestamp ≡ true
        → (set_finalizer_if_finalizer patch r resource s).0 ≡ ok u
        → has u.object_meta.finalizers r.finalizer_name ≡ true
    unfolding set_finalizer_if_finalizer update_finalizers_filtered
    set_finalizer-has alive h =
        filtered-has (marked patch r resource) u s _ (
          subst
            (λ b.
              (if b
                then (ok resource, s)
                else update_finalizers_filtered patch r (marked patch r resource) s).0
              ≡ ok u)
            finalizes h)
        ∙ has-marked resource alive

    -- For a request that is being deleted, when clearFinalizer returns no error, the request that it
    -- returns has the reconciler's finalizer exactly if it had it and FinalizeKind returned something
    -- else than nil or an event of type Normal.
    pub clear_finalizer-has :
        (event : Option Event)
        → is_none resource.object_meta.deletion_timestamp ≡ false
        → (clear_finalizer patch r resource event s).0 ≡ ok u
        → has u.object_meta.finalizers r.finalizer_name
          ≡ (not (is_clean event) && has resource.object_meta.finalizers r.finalizer_name)
    unfolding clear_finalizer update_finalizers_filtered
    clear_finalizer-has event going h =
        filtered-has (unmarked patch r resource event) u s _ (
          subst
            (λ b.
              (if b
                then (ok resource, s)
                else update_finalizers_filtered patch r (unmarked patch r resource event) s).0
              ≡ ok u)
            going
            (subst
              (λ b.
                (if b
                  then (ok resource, s)
                  else if is_none resource.object_meta.deletion_timestamp
                  then (ok resource, s)
                  else update_finalizers_filtered patch r (unmarked patch r resource event) s).0
                ≡ ok u)
              finalizes h))
        ∙ has-unmarked resource event

-- ===== src/Visit/Retrying.antt =====
-- A concrete library around the visits, which shows that the laws can be met. It retries an update after a
-- conflict, at most four times, as RetryUpdateConflicts does.
use resolution.Prelude.{
  ℕ, zero, suc, ◌≡◌, ◌≢◌, refl, ap, inl, inr, Bool, true, false, Bool-cases, ◌&&◌, Option, none,
  some, [], ◌∷◌, arith, sprintf, ◌==◌, eq_iff, eq_refl, ◌=?◌, =?_iff, if◌then◌else◌,
}
use resolution.Api.{
  Bytes, Condition, ConditionStatus, condition_true, condition_false, condition_unknown,
  ResolutionRequestStatus, ResolutionRequest,
}
use resolution.Api.Lifecycle.{get_condition}
use resolution.Cluster.Slot.{Slot}
use resolution.Knative.Batch.{batch, find-initialized}
use resolution.Knative.Manager.{succeeded, or_unknown}
use resolution.Visit.{Support, Attempts, last, again}
use resolution.Common.Errors.{Error, api, conflict}

abbrev same_value : ConditionStatus → ConditionStatus → Bool
same_value condition_true condition_true = true
same_value condition_false condition_false = true
same_value condition_unknown condition_unknown = true
same_value _ _ = false

abbrev same_condition : Option Condition → Option Condition → Bool
same_condition none none = true
same_condition (some c) (some d) =
    (c.condition_type == d.condition_type)
    && same_value c.status d.status
    && (c.reason == d.reason)
    && (c.message == d.message)
same_condition _ _ = false

abbrev same_bytes : Bytes → Bytes → Bool
same_bytes [] [] = true
same_bytes (x ∷ xs) (y ∷ ys) = let rest = same_bytes xs ys in (x =? y) && rest
same_bytes _ _ = false

abbrev same_status : ResolutionRequestStatus → ResolutionRequestStatus → Bool
same_status s t =
    same_condition (get_condition batch s) (get_condition batch t)
    && same_bytes s.fields.payload t.fields.payload
    && (s.duck.observed_generation =? t.duck.observed_generation)

same_value-eq : (s t : ConditionStatus) → same_value s t ≡ true → s ≡ t
same_value-eq condition_true condition_true h = refl
same_value-eq condition_true condition_false h = cc
same_value-eq condition_true condition_unknown h = cc
same_value-eq condition_false condition_true h = cc
same_value-eq condition_false condition_false h = refl
same_value-eq condition_false condition_unknown h = cc
same_value-eq condition_unknown condition_true h = cc
same_value-eq condition_unknown condition_false h = cc
same_value-eq condition_unknown condition_unknown h = refl

pub same_condition-eq : (c d : Option Condition) → same_condition c d ≡ true → c ≡ d
same_condition-eq none none h = refl
same_condition-eq none (some d) h = cc
same_condition-eq (some c) none h = cc
same_condition-eq (some c) (some d) h = ground (
  arith,
  eq_iff c.condition_type d.condition_type,
  same_value-eq c.status d.status,
  eq_iff c.reason d.reason,
  eq_iff c.message d.message,
)

pub same_bytes-eq : (xs ys : Bytes) → same_bytes xs ys ≡ true → xs ≡ ys
same_bytes-eq [] [] h = refl
same_bytes-eq [] (y ∷ ys) h = cc
same_bytes-eq (x ∷ xs) [] h = cc
same_bytes-eq (x ∷ xs) (y ∷ ys) h = ground (arith, =?_iff x y, same_bytes-eq xs ys)

pub both : (p q : Bool) → (p && q) ≡ true → (p ≡ true) × (q ≡ true)
both p q h = ground arith

same_value_refl : (s : ConditionStatus) → same_value s s ≡ true
same_value_refl condition_true = refl
same_value_refl condition_false = refl
same_value_refl condition_unknown = refl

same_condition_refl : (c : Option Condition) → same_condition c c ≡ true
same_condition_refl none = refl
same_condition_refl (some c) =
    ground (
      arith,
      eq_refl c.condition_type,
      same_value_refl c.status,
      eq_refl c.reason,
      eq_refl c.message,
    )

same_bytes_refl : (xs : Bytes) → same_bytes xs xs ≡ true
same_bytes_refl [] = refl
same_bytes_refl (x ∷ xs) = ground (arith, =?_iff x x, same_bytes_refl xs)

pub same_status_refl : (s : ResolutionRequestStatus) → same_status s s ≡ true
same_status_refl s = ground (
  arith,
  same_condition_refl (get_condition batch s),
  same_bytes_refl s.fields.payload,
  =?_iff s.duck.observed_generation s.duck.observed_generation,
)

pub same_status-parts :
    (s t : ResolutionRequestStatus)
    → same_status s t ≡ true
    → (get_condition batch s ≡ get_condition batch t)
      × (s.fields.payload ≡ t.fields.payload)
      × (s.duck.observed_generation ≡ t.duck.observed_generation)
same_status-parts s t h =
    let (first, g) = both _ _ h in
    let (c, b) = both _ _ first in (same_condition-eq _ _ c, same_bytes-eq _ _ b, (=?_iff _ _).0 g)

abbrev pre_process : ResolutionRequest → ResolutionRequest
pre_process rr = record rr {
  status = record rr.status {
    duck = record rr.status.duck {
      conditions =
          if rr.status.duck.observed_generation =? rr.object_meta.generation
          then batch.initialize_conditions rr.status.duck.conditions
          else batch.mark_unknown "NewObservedGenFailure" "unsuccessfully observed a new generation"
              rr.status.duck.conditions;
    };
  };
}

abbrev post_process : ResolutionRequest → ResolutionRequest → ResolutionRequest
post_process rr original = record rr {
  status = record rr.status {
    duck = record rr.status.duck { observed_generation = rr.object_meta.generation };
  };
}

pub current :
    (rr : ResolutionRequest)
    → rr.status.duck.observed_generation ≡ rr.object_meta.generation
    → get_condition batch (pre_process rr).status
      ≡ some (or_unknown (get_condition batch rr.status))
current rr h = rw ((=?_iff _ _).1 h) (find-initialized rr.status.duck.conditions)

pub outdated :
    (rr : ResolutionRequest)
    → rr.status.duck.observed_generation ≢ rr.object_meta.generation
    → get_condition batch (pre_process rr).status
      ≡ some (
          succeeded condition_unknown "NewObservedGenFailure"
            "unsuccessfully observed a new generation")
unfolding sprintf
outdated rr n =
    elim (Bool-cases (rr.status.duck.observed_generation =? rr.object_meta.generation)) [
      | inl e ↦ absurd (n ((=?_iff _ _).0 e))
      | inr e ↦ rw e refl
    ]

-- apierrors.IsConflict, of an error or nil
abbrev is_conflict : Option Error → Bool
is_conflict (some (api conflict m)) = true
is_conflict _ = false

conflict-error : (o : Option Error) → is_conflict o ≡ true → (e : Error) × (o ≡ some e)
conflict-error none h = cc
conflict-error (some e) h = (e, refl)

-- RetryUpdateConflicts, from the attempt `i`, with `n` more that may follow
abbrev retried : ℕ → (ℕ → Slot → Option Error × Slot) → ℕ → Slot → Option Error × Slot
retried zero f i c = f i c
retried (suc n) f i c = elim (is_conflict (f i c).0) [
  | true ↦ retried n f (suc i) (f i c).1
  | false ↦ f i c
]

pub retried-Attempts :
    (n : ℕ) (f : ℕ → Slot → Option Error × Slot) (i : ℕ) (c : Slot)
    → Attempts f i c (retried n f i c)
retried-Attempts zero f i c = last i c
retried-Attempts (suc n) f i c = elim (Bool-cases (is_conflict (f i c).0)) [
  | inl h ↦
      let (e, fails) = conflict-error (f i c).0 h in
      rw (retried, h) (again i c e _ fails (retried-Attempts n f (suc i) (f i c).1))
  | inr h ↦ rw (retried, h) (last i c)
]

abbrev pub retrying : Support batch Slot
retrying = record {
  is_not_found = λ e. true;
  same_status = same_status;
  pre_process = pre_process;
  post_process = post_process;
  retry_update_conflicts = λ f c. retried 4 f 0 c;
  same_status_refl = same_status_refl;
  same_status-condition = λ s t h. (same_status-parts s t h).0;
  same_status-fields = λ s t h. ap (λ p. record { payload = p }) (same_status-parts s t h).1;
  same_status-observed = λ s t h. (same_status-parts s t h).2;
  pre_process-kept = λ rr. record { object_meta = refl; spec = refl; fields = refl };
  pre_process-current = current;
  pre_process-outdated = outdated;
  post_process-kept = λ rr original. record { object_meta = refl; spec = refl; fields = refl };
  post_process-condition = λ rr original. refl;
  post_process-observed = λ rr original. refl;
  retry-Attempts = λ f c. retried-Attempts 4 f 0 c;
}

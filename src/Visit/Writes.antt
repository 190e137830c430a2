-- ===== src/Visit/Writes.antt =====
-- What a visit leaves in the cluster.
use mathlib.Core.Path.{subst, subst₂}
use resolution.Prelude.{
  ℕ, zero, suc, ◌≡◌, refl, sym, inl, inr, false, Bool-cases, Option, none, some, Result, ok, err,
  Result-cases, if◌then◌else◌,
}
use resolution.Common.Errors.{Error}
use resolution.Api.{ResolutionRequest}
use resolution.Api.Lifecycle.{get_condition}
use resolution.Cluster.{ApiServer, with_status}
use resolution.Knative.Manager.{Manager}
use resolution.Visit.{
  Attempts, last, again, Support, error_only, write_status, attempt, update_status,
}

-- What every attempt that ends without an error leaves is left by them all.
attempts-end :
    {C : Type 0} (f : ℕ → C → Option Error × C) (Fit : ℕ → C → Type 0) (Good : C → Type 0)
    → ((n : ℕ) (c : C) → Fit (suc n) c)
    → ((n : ℕ) (c : C) → Fit n c → (f n c).0 ≡ none → Good (f n c).1)
    → (n : ℕ) (c : C) (r : Option Error × C) → Attempts f n c r
    → Fit n c
    → r.0 ≡ none
    → Good r.1
attempts-end f Fit Good later step _ _ _ (last n c) fit h = step n c fit h
attempts-end f Fit Good later step _ _ _ (again n c e r h rest) fit g =
    attempts-end f Fit Good later step (suc n) (f n c).1 r rest (later n _) g

module _ {C : Type 0} (k : Manager) (a : ApiServer C) (lib : Support k C)
    (original desired : ResolutionRequest)
    (same_name : desired.object_meta ≡ original.object_meta) where
  -- The stored request has the condition and the data of the processed copy.
  abbrev Landed : C → Type 0
  Landed c =
      (new : ResolutionRequest) × (a.stored original.object_meta.namespace original.object_meta.name
          c
        ≡ some new)
      × (get_condition k new.status ≡ get_condition k desired.status)
      × (new.status.fields ≡ desired.status.fields)

  pub error_only-ok :
      (x : Result Error ResolutionRequest × C)
      → (error_only k a lib x).0 ≡ none
      → (u : ResolutionRequest) × (x.0 ≡ ok u) × ((error_only k a lib x).1 ≡ x.1)
  error_only-ok (ok u, c) h = (u, refl, refl)
  error_only-ok (err e, c) h = cc

  -- An update that was accepted.
  updated :
      (existing old : ResolutionRequest) (c : C)
      → existing.object_meta.namespace ≡ original.object_meta.namespace
      → existing.object_meta.name ≡ original.object_meta.name
      → a.stored original.object_meta.namespace original.object_meta.name c ≡ some old
      → (error_only k a lib (
          a.update_status existing.object_meta.namespace
            (record existing { status = desired.status })
            c)).0
        ≡ none
      → Landed
          (error_only k a lib (
            a.update_status existing.object_meta.namespace
              (record existing { status = desired.status })
              c)).1
  updated existing old c ns name at h =
      let (u, accepted, left) =
        error_only-ok
          (a.update_status existing.object_meta.namespace
            (record existing { status = desired.status }) c)
          h in
      let there : a.stored existing.object_meta.namespace existing.object_meta.name c ≡ some old =
        subst₂ (λ x y. a.stored x y c ≡ some old) (sym ns) (sym name) at in
      let (v, stored) =
        a.update_status-ok existing.object_meta.namespace
          (record existing { status = desired.status }) u old c there accepted in
      (
        with_status old desired.status v,
        subst
            (λ s.
              a.stored original.object_meta.namespace original.object_meta.name s
              ≡ some (with_status old desired.status v))
            (sym left)
            (subst₂
              (λ x y.
                a.stored x y
                  (a.update_status existing.object_meta.namespace
                    (record existing { status = desired.status }) c).1
                ≡ some (with_status old desired.status v))
              ns name stored),
        refl,
        refl,
      )

  -- What an attempt needs: the first that the object is stored, and that the statuses differ.
  abbrev Fit : ℕ → C → Type 0
  Fit zero c =
      ((old : ResolutionRequest) × (a.stored original.object_meta.namespace
            original.object_meta.name c
          ≡ some old))
      × (lib.same_status original.status desired.status ≡ false)
  Fit (suc n) c = Unit

  first_attempt :
      (c : C)
      → Fit 0 c
      → (attempt k a lib original desired 0 c).0 ≡ none
      → Landed (attempt k a lib original desired 0 c).1
  unfolding attempt write_status
  first_attempt c ((old, at), differ) =
      subst
        (λ b. (if b then (none, c) else sent).0 ≡ none → Landed (if b then (none, c) else sent).1)
        (sym differ) (updated original old c refl refl at)
    where
      sent : Option Error × C
      sent = error_only k a lib (
          a.update_status original.object_meta.namespace
            (record original { status = desired.status }) c)

  on_latest :
      (latest : ResolutionRequest) (c : C)
      → a.stored original.object_meta.namespace original.object_meta.name c ≡ some latest
      → (write_status k a lib latest desired c).0 ≡ none
      → Landed (write_status k a lib latest desired c).1
  unfolding write_status
  on_latest latest c at =
      let (ns, name) = a.stored_name _ _ c latest at in
      elim (Bool-cases (lib.same_status latest.status desired.status)) [
        | inl same ↦
            subst
              (λ b.
                (if b then (none, c) else sent).0 ≡ none → Landed (if b then (none, c) else sent).1)
              (sym same)
              (λ h.
                (latest, at, lib.same_status-condition _ _ same, lib.same_status-fields _ _ same))
        | inr differ ↦
            subst
              (λ b.
                (if b then (none, c) else sent).0 ≡ none → Landed (if b then (none, c) else sent).1)
              (sym differ) (updated latest latest c ns name at)
      ]
    where
      sent : Option Error × C
      sent = error_only k a lib (
          a.update_status latest.object_meta.namespace (record latest { status = desired.status })
            c)

  later_attempt :
      (n : ℕ) (c : C)
      → (attempt k a lib original desired (suc n) c).0 ≡ none
      → Landed (attempt k a lib original desired (suc n) c).1
  unfolding attempt
  later_attempt n c =
      elim (Result-cases (a.get desired.object_meta.namespace desired.object_meta.name c)) [
        | inr (e, g) ↦ subst (λ x. (fetching x).0 ≡ none → Landed (fetching x).1) (sym g) (λ h. cc)
        | inl (latest, g) ↦
            subst (λ x. (fetching x).0 ≡ none → Landed (fetching x).1) (sym g)
              (on_latest latest c (
                subst (λ m. a.stored m.namespace m.name c ≡ some latest) same_name
                  (a.get-ok _ _ c latest g)))
      ]
    where
      fetching : Result Error ResolutionRequest → Option Error × C
      fetching x = elim x [
        | err e ↦ (some e, c)
        | ok latest ↦ write_status k a lib latest desired c
      ]

  one_attempt :
      (n : ℕ) (c : C)
      → Fit n c
      → (attempt k a lib original desired n c).0 ≡ none
      → Landed (attempt k a lib original desired n c).1
  one_attempt zero c fit h = first_attempt c fit h
  one_attempt (suc n) c fit h = later_attempt n c h

  pub update_status-lands :
      (c : C)
      → Fit 0 c
      → (update_status k a lib original desired c).0 ≡ none
      → Landed (update_status k a lib original desired c).1
  unfolding update_status
  update_status-lands c fit h =
      attempts-end (attempt k a lib original desired) Fit Landed (λ n s. tt) one_attempt 0 c _
        (lib.retry-Attempts (attempt k a lib original desired) c) fit h

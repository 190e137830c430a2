-- ===== src/System/Protocol/Faithful.antt =====
-- What was read of a request is what is stored, as long as the versions are the same.
use mathlib.Core.List.{Memᴰ}
use mathlib.Core.List.Memᴰ.{cases_cons}
use resolution.Prelude.{ℕ, ◌≡◌, ◌≤◌, ◌<◌, sym, ap, ◌∙◌, inl, inr, some, some_injective, arith}
use mathlib.Core.Path.{subst}
use resolution.Api.{ResolutionRequest}
use resolution.System.Protocol.{
  Rules, World, number, Step, read, create, write, delete, pass, Steps, Steps-keep,
}

module _ {C : Type 0} (rules : Rules C) where
  pub record IsFaithful (w : World) : Type 0 where
    pub bounded :
        (rr : ResolutionRequest)
        → w.stored ≡ some rr
        → number rules rr.object_meta.resource_version ≤ w.revision
    pub remembered :
        (s : ResolutionRequest)
        → Memᴰ s w.seen
        → number rules s.object_meta.resource_version ≤ w.revision
    pub current :
        (s rr : ResolutionRequest)
        → Memᴰ s w.seen
        → w.stored ≡ some rr
        → s.object_meta.resource_version ≡ rr.object_meta.resource_version
        → s ≡ rr

  -- A write has a version that is newer than all that were read.
  newer-IsFaithful :
      (w : World) (x : ResolutionRequest) (n : ℕ)
      → w.revision < number rules x.object_meta.resource_version
      → number rules x.object_meta.resource_version ≤ n
      → IsFaithful w
      → IsFaithful (record w { stored = some x; revision = n })
  newer-IsFaithful w x n l h f = record {
    bounded =
        λ rr at. subst (λ y. number rules y.object_meta.resource_version ≤ n) (some_injective at) h;
    remembered = λ s m. omega (arith, f.remembered s m);
    current = λ s rr m at e. absurd (
        omega (
          arith,
          f.remembered s m,
          ap (number rules)
              (e ∙ ap (λ y. y.object_meta.resource_version) (sym (some_injective at))),
        ));
  }

  pub Step-IsFaithful : (u v : World) → Step rules u v → IsFaithful u → IsFaithful v
  Step-IsFaithful _ _ (read w rr st) f = record {
    bounded = f.bounded;
    remembered = λ s m. elim (cases_cons m) [
      | inl e ↦
          subst (λ x. number rules x.object_meta.resource_version ≤ w.revision) (sym e)
            (f.bounded rr st)
      | inr n ↦ f.remembered s n
    ];
    current = λ s x m at e. elim (cases_cons m) [
      | inl same ↦ same ∙ some_injective (sym st ∙ at)
      | inr n ↦ f.current s x n at e
    ];
  }
  Step-IsFaithful _ _ (create w resolver req time generation v n st l h) f =
      newer-IsFaithful w _ n l h f
  Step-IsFaithful _ _ (write w old s v n st wr l h) f = newer-IsFaithful w _ n l h f
  Step-IsFaithful _ _ (delete w n d l) f = record {
    bounded = λ rr at. cc;
    remembered = λ s m. omega (arith, f.remembered s m);
    current = λ s x m at e. cc;
  }
  Step-IsFaithful _ _ (pass w n l) f = record {
    bounded = λ rr at. omega (arith, f.bounded rr at);
    remembered = λ s m. omega (arith, f.remembered s m);
    current = f.current;
  }

  -- No step makes what was read differ from a stored request of the same version.
  pub Steps-IsFaithful : (u w : World) → Steps rules u w → IsFaithful u → IsFaithful w
  Steps-IsFaithful u w s f = Steps-keep rules IsFaithful Step-IsFaithful u w s f

-- ===== src/Api/Copies/Slices.antt =====
-- That copies of the elements of a slice make a copy of the slice.
use resolution.Prelude.{ℕ, ◌≤◌, ◌<◌, ◌≡◌, refl, ◌∙◌, ◌⊎◌, inl, inr, List, [], ◌∷◌, map, arith}
use mathlib.Core.Path.{ap₂}
use resolution.Api.Copies.{Heap, copy_items}
use resolution.Api.Copies.Laws.{Copying}

-- The elements of a slice
module _ {T V : Type 0} (x : Copying T V) where
  abbrev UsesSome : List T → ℕ → Type 0
  UsesSome [] i = ⊥
  UsesSome (t ∷ ts) i = x.Uses t i ⊎ UsesSome ts i

  pub items-local :
      (ts : List T) (h h' : Heap)
      → ((i : ℕ) → UsesSome ts i → h'.maps i ≡ h.maps i)
      → map (x.read h') ts ≡ map (x.read h) ts
  items-local [] h h' e = refl
  items-local (t ∷ ts) h h' e =
      ap₂ (λ v vs. v ∷ vs) (x.read-local t h h' (λ i a. e i (inl a)))
        (items-local ts h h' (λ i a. e i (inr a)))

  pub items-grows : (ts : List T) (h : Heap) → h.next ≤ (copy_items x.copy_into ts h).1.next
  unfolding copy_items
  items-grows [] h = omega arith
  items-grows (t ∷ ts) h = omega (arith, x.grows t h, items-grows ts (x.copy_into t h).1)

  pub items-old :
      (ts : List T) (h : Heap) (i : ℕ)
      → i < h.next
      → (copy_items x.copy_into ts h).1.maps i ≡ h.maps i
  unfolding copy_items
  items-old [] h i l = refl
  items-old (t ∷ ts) h i l =
      items-old ts (x.copy_into t h).1 i (omega (arith, x.grows t h)) ∙ x.old t h i l

  pub items-fresh :
      (ts : List T) (h : Heap) (i : ℕ)
      → UsesSome (copy_items x.copy_into ts h).0 i
      → (h.next ≤ i) × (i < (copy_items x.copy_into ts h).1.next)
  unfolding copy_items
  items-fresh [] h i u = absurd u
  items-fresh (t ∷ ts) h i (inl a) =
      omega (arith, x.fresh t h i a, items-grows ts (x.copy_into t h).1)
  items-fresh (t ∷ ts) h i (inr a) =
      omega (arith, items-fresh ts (x.copy_into t h).1 i a, x.grows t h)

  pub items-same :
      (ts : List T) (h : Heap)
      → ((i : ℕ) → UsesSome ts i → i < h.next)
      → map (x.read (copy_items x.copy_into ts h).1) (copy_items x.copy_into ts h).0
        ≡ map (x.read h) ts
  unfolding copy_items
  items-same [] h valid = refl
  items-same (t ∷ ts) h valid =
      let h₁ = (x.copy_into t h).1 in
      let kept =
        x.read-local (x.copy_into t h).0 h₁ (copy_items x.copy_into ts h₁).1
          (λ i a. items-old ts h₁ i (x.fresh t h i a).1) in
      let before = items-local ts h h₁ (λ i a. x.old t h i (valid i (inr a))) in
      ap₂ (λ v vs. v ∷ vs) (kept ∙ x.same t h (λ i a. valid i (inl a)))
        (items-same ts h₁ (λ i a. omega (arith, valid i (inr a), x.grows t h)) ∙ before)

  abbrev pub items : Copying (List T) (List V)
  items = record {
    read = λ h ts. map (x.read h) ts;
    Uses = UsesSome;
    copy_into = copy_items x.copy_into;
    read-local = items-local;
    grows = items-grows;
    old = items-old;
    fresh = items-fresh;
    same = items-same;
  }

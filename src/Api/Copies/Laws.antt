-- ===== src/Api/Copies/Laws.antt =====
-- What a deep copy is, and that copies of parts make a copy of the whole.
use resolution.Prelude.{
  ℕ, ◌≤◌, ◌<◌, String, ◌≡◌, refl, ap, ◌∙◌, ◌⊎◌, inl, inr, Option, none, some, List, =?_iff, arith,
  lookup,
}
use mathlib.Core.Path.{ap₂, fun_ext}
use resolution.Framework.{copy}
use resolution.Framework.Setup.Config.{lookup-copy}
use resolution.Api.Copies.{Heap, new_map, Entries, entries_of, copy_map, if_not_nil}

-- Objects of a type, that are read as values and refer to maps, and a copy of them: it makes new maps
-- only, refers to no other, and is read as the same value.
pub record Copying (T V : Type 0) : Type 1 where
  pub read : Heap → T → V
  pub Uses : T → ℕ → Type 0
  pub copy_into : T → Heap → T × Heap
  pub read-local :
      (t : T) (h h' : Heap) → ((i : ℕ) → Uses t i → h'.maps i ≡ h.maps i) → read h' t ≡ read h t
  pub grows : (t : T) (h : Heap) → h.next ≤ (copy_into t h).1.next
  pub old : (t : T) (h : Heap) (i : ℕ) → i < h.next → (copy_into t h).1.maps i ≡ h.maps i
  pub fresh :
      (t : T) (h : Heap) (i : ℕ)
      → Uses (copy_into t h).0 i
      → (h.next ≤ i) × (i < (copy_into t h).1.next)
  pub same :
      (t : T) (h : Heap)
      → ((i : ℕ) → Uses t i → i < h.next)
      → read (copy_into t h).1 (copy_into t h).0 ≡ read h t

-- Values without maps
abbrev pub plain : (A : Type 0) → Copying A A
plain A = record {
  read = λ h t. t;
  Uses = λ t i. ⊥;
  copy_into = λ t h. (t, h);
  read-local = λ t h h' e. refl;
  grows = λ t h. omega arith;
  old = λ t h i l. refl;
  fresh = λ t h i u. absurd u;
  same = λ t h v. refl;
}

abbrev pub UsesMap : Option ℕ → ℕ → Type 0
UsesMap none i = ⊥
UsesMap (some a) i = a ≡ i

pub map-local :
    (t : Option ℕ) (h h' : Heap)
    → ((i : ℕ) → UsesMap t i → h'.maps i ≡ h.maps i)
    → entries_of h' t ≡ entries_of h t
map-local none h h' e = refl
map-local (some a) h h' e = ap (λ m. some (λ key. lookup key m)) (e a refl)

pub map-grows : (t : Option ℕ) (h : Heap) → h.next ≤ (copy_map t h).1.next
map-grows none h = omega arith
map-grows (some a) h = omega arith

pub map-old : (t : Option ℕ) (h : Heap) (i : ℕ) → i < h.next → (copy_map t h).1.maps i ≡ h.maps i
map-old none h i l = refl
map-old (some a) h i l = ground arith

pub map-fresh :
    (t : Option ℕ) (h : Heap) (i : ℕ)
    → UsesMap (copy_map t h).0 i
    → (h.next ≤ i) × (i < (copy_map t h).1.next)
map-fresh none h i u = absurd u
map-fresh (some a) h i u = (omega arith, omega arith)

new_read : (m : List (String × String)) (h : Heap) → (new_map m h).1.maps (new_map m h).0 ≡ m
new_read m h = ground (arith, =?_iff h.next h.next)

pub map-same :
    (t : Option ℕ) (h : Heap)
    → ((i : ℕ) → UsesMap t i → i < h.next)
    → entries_of (copy_map t h).1 (copy_map t h).0 ≡ entries_of h t
map-same none h v = refl
map-same (some a) h v =
    ap some
      (fun_ext (λ key. ap (lookup key) (new_read (copy (h.maps a)) h) ∙ lookup-copy key (h.maps a)))

-- A map, or nil
abbrev pub map_copying : Copying (Option ℕ) Entries
map_copying = record {
  read = entries_of;
  Uses = UsesMap;
  copy_into = copy_map;
  read-local = map-local;
  grows = map-grows;
  old = map-old;
  fresh = map-fresh;
  same = map-same;
}

-- A pointer, or a slice, that may be nil
module _ {T V : Type 0} (x : Copying T V) where
  abbrev UsesIf : Option T → ℕ → Type 0
  UsesIf none i = ⊥
  UsesIf (some t) i = x.Uses t i

  abbrev read_if : Heap → Option T → Option V
  read_if h none = none
  read_if h (some t) = some (x.read h t)

  pub if-local :
      (t : Option T) (h h' : Heap)
      → ((i : ℕ) → UsesIf t i → h'.maps i ≡ h.maps i)
      → read_if h' t ≡ read_if h t
  if-local none h h' e = refl
  if-local (some t) h h' e = ap some (x.read-local t h h' e)

  pub if-grows : (t : Option T) (h : Heap) → h.next ≤ (if_not_nil x.copy_into t h).1.next
  if-grows none h = omega arith
  if-grows (some t) h = x.grows t h

  pub if-old :
      (t : Option T) (h : Heap) (i : ℕ)
      → i < h.next
      → (if_not_nil x.copy_into t h).1.maps i ≡ h.maps i
  if-old none h i l = refl
  if-old (some t) h i l = x.old t h i l

  pub if-fresh :
      (t : Option T) (h : Heap) (i : ℕ)
      → UsesIf (if_not_nil x.copy_into t h).0 i
      → (h.next ≤ i) × (i < (if_not_nil x.copy_into t h).1.next)
  if-fresh none h i u = absurd u
  if-fresh (some t) h i u = x.fresh t h i u

  pub if-same :
      (t : Option T) (h : Heap)
      → ((i : ℕ) → UsesIf t i → i < h.next)
      → read_if (if_not_nil x.copy_into t h).1 (if_not_nil x.copy_into t h).0 ≡ read_if h t
  if-same none h v = refl
  if-same (some t) h v = ap some (x.same t h v)

  abbrev pub optional : Copying (Option T) (Option V)
  optional = record {
    read = read_if;
    Uses = UsesIf;
    copy_into = if_not_nil x.copy_into;
    read-local = if-local;
    grows = if-grows;
    old = if-old;
    fresh = if-fresh;
    same = if-same;
  }

-- One after the other
module _ {T U V W : Type 0} (x : Copying T V) (y : Copying U W) where
  abbrev both : T × U → Heap → (T × U) × Heap
  both (t, u) h =
      let (t', h₁) = x.copy_into t h in let (u', h₂) = y.copy_into u h₁ in ((t', u'), h₂)

  abbrev UsesBoth : T × U → ℕ → Type 0
  UsesBoth (t, u) i = x.Uses t i ⊎ y.Uses u i

  abbrev read_both : Heap → T × U → V × W
  read_both h (t, u) = (x.read h t, y.read h u)

  pub both-fresh :
      (t : T) (u : U) (h : Heap) (i : ℕ)
      → UsesBoth (both (t, u) h).0 i
      → (h.next ≤ i) × (i < (both (t, u) h).1.next)
  both-fresh t u h i (inl a) = omega (arith, x.fresh t h i a, y.grows u (x.copy_into t h).1)
  both-fresh t u h i (inr a) = omega (arith, y.fresh u (x.copy_into t h).1 i a, x.grows t h)

  pub both-old :
      (t : T) (u : U) (h : Heap) (i : ℕ) → i < h.next → (both (t, u) h).1.maps i ≡ h.maps i
  both-old t u h i l = y.old u (x.copy_into t h).1 i (omega (arith, x.grows t h)) ∙ x.old t h i l

  pub both-same :
      (t : T) (u : U) (h : Heap)
      → ((i : ℕ) → UsesBoth (t, u) i → i < h.next)
      → read_both (both (t, u) h).1 (both (t, u) h).0 ≡ read_both h (t, u)
  both-same t u h valid =
      let h₁ = (x.copy_into t h).1 in
      let kept =
        x.read-local (x.copy_into t h).0 h₁ (y.copy_into u h₁).1
          (λ i a. y.old u h₁ i (x.fresh t h i a).1) in
      let before = y.read-local u h h₁ (λ i a. x.old t h i (valid i (inr a))) in
      ap₂ (λ v w. (v, w)) (kept ∙ x.same t h (λ i a. valid i (inl a)))
        (y.same u h₁ (λ i a. omega (arith, valid i (inr a), x.grows t h)) ∙ before)

  abbrev pub pair : Copying (T × U) (V × W)
  pair = record {
    read = read_both;
    Uses = UsesBoth;
    copy_into = both;
    read-local = λ (t, u) h h' e.
        ap₂ (λ v w. (v, w)) (x.read-local t h h' (λ i a. e i (inl a)))
          (y.read-local u h h' (λ i a. e i (inr a)));
    grows = λ (t, u) h. omega (arith, x.grows t h, y.grows u (x.copy_into t h).1);
    old = λ (t, u) h. both-old t u h;
    fresh = λ (t, u) h. both-fresh t u h;
    same = λ (t, u) h. both-same t u h;
  }

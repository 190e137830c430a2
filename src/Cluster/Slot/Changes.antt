-- ===== src/Cluster/Slot/Changes.antt =====
-- The calls change a request only as they are asked to, under a version that is new.
use Prim.Native.String.{◌++◌, [], ◌∷◌}
use text.Mathlib.TextLemmas.{nil-append, cons-append}
use mathlib.Core.Path.{subst}
use resolution.Prelude.{
  ℕ, suc, ◌≤◌, String, ◌≡◌, refl, sym, ap, ◌∙◌, Bool, true, false, Bool-cases, inl, inr, Option,
  none, some, some_injective, ok, ◌==◌, eq_iff, arith, codes, length, if◌then◌else◌, if-cases, ◌<◌,
}
use resolution.Api.{ResolutionRequest, ResolutionRequestStatus}
use resolution.Cluster.{
  StatusDataPatch, Json, marshal, Change, kept, wrote, Creation, Update, Patching, with_status,
  born, merge_status,
}
use resolution.Cluster.Slot.{
  Slot, clock, is_named, stored, bumped, create, write, version_of, update_status, patch_of,
  apply_patch, patch_status, stored_named, patch_of-marshal,
}

-- The number of a version is the length of its text, to which every write adds one.
abbrev pub number : String → ℕ
number v = length (codes v)

abbrev pub revision : Slot → ℕ
revision none = 0
revision (some rr) = number rr.object_meta.resource_version

length-tick : (v : String) → number (v ++ "'") ≡ suc (number v)
length-tick [] = ap number (nil-append "'")
length-tick (ch ∷ v) = ap number (cons-append ch v "'") ∙ ap suc (length-tick v)

-- An object that is there under a name, or else is not.
replaced :
    (Asked : Option ResolutionRequest → (String → ResolutionRequest) → Type 0) (b : Bool)
    (lo hi : ℕ) (old : ResolutionRequest) (new : String → ResolutionRequest) (v : String)
    → (b ≡ true → Asked (some old) new)
    → lo < number v
    → number v ≤ hi
    → Change number Asked lo hi (if b then some old else none) (if b then some (new v) else none)
replaced Asked true lo hi old new v asked l h = wrote new v (asked refl) refl l h
replaced Asked false lo hi old new v asked l h = kept refl (omega arith)

added :
    (Asked : Option ResolutionRequest → (String → ResolutionRequest) → Type 0) (b : Bool)
    (lo hi : ℕ) (new : String → ResolutionRequest) (v : String)
    → (b ≡ true → Asked none new)
    → lo < number v
    → number v ≤ hi
    → Change number Asked lo hi none (if b then some (new v) else none)
added Asked true lo hi new v asked l h = wrote new v (asked refl) refl l h
added Asked false lo hi new v asked l h = kept refl (omega arith)

named :
    (n m : String) (rr : ResolutionRequest)
    → is_named n m rr ≡ true
    → (rr.object_meta.namespace ≡ n) × (rr.object_meta.name ≡ m)
named n m rr h = ground (arith, eq_iff rr.object_meta.namespace n, eq_iff rr.object_meta.name m)

-- The object that is stored is written.
rewritten :
    (Asked : Option ResolutionRequest → (String → ResolutionRequest) → Type 0)
    (old : ResolutionRequest) (s : ResolutionRequestStatus) (n m : String)
    → (old.object_meta.namespace ≡ n
        → old.object_meta.name ≡ m
        → Asked (some old) (with_status old s))
    → Change number Asked
        (revision (some old))
        (revision (some (with_status old s (bumped old))))
        (stored n m (some old))
        (stored n m (some (with_status old s (bumped old))))
rewritten Asked old s n m asked =
    replaced Asked (is_named n m old) _ _ old (with_status old s) (bumped old)
      (λ b. let (e, f) = named n m old b in asked e f)
      (omega (arith, length-tick old.object_meta.resource_version)) (omega arith)

pub stored-number :
    (ns name : String) (c : Slot) (rr : ResolutionRequest)
    → stored ns name c ≡ some rr
    → number rr.object_meta.resource_version ≤ revision c
stored-number ns name none rr h = cc
stored-number ns name (some r) rr h =
    elim (if-cases (is_named ns name r) (some r) none (some rr) h) [
      | inl (b, e) ↦
          subst (λ x. number x.object_meta.resource_version ≤ revision (some r)) (some_injective e)
            (omega arith)
      | inr (b, e) ↦ cc
    ]

pub create-Change :
    (ns : String) (rr : ResolutionRequest) (c : Slot) (n m : String)
    → Change number
        (Creation ns rr n m)
        (revision c)
        (revision (create ns rr c).1)
        (stored n m c)
        (stored n m (create ns rr c).1)
create-Change ns rr (some old) n m = kept refl (omega arith)
create-Change ns rr none n m = elim (Bool-cases (rr.object_meta.namespace == ns)) [
  | inr f ↦ rw f (kept refl (omega arith))
  | inl t ↦ rw t (
      added (Creation ns rr n m) (is_named n m rr) _ _ (with_status (born rr clock 1) rr.status)
        (bumped rr)
        (λ b.
          let (e, f) = named n m rr b in (clock, 1, sym e ∙ (eq_iff _ _).0 t, sym f, refl, refl))
        (omega (arith, length-tick rr.object_meta.resource_version)) (omega arith))
]

-- A write, where what it found can only be the one object.
write-Change :
    (Asked : Option ResolutionRequest → (String → ResolutionRequest) → Type 0)
    (found : Option ResolutionRequest) (current : Bool) (old : ResolutionRequest)
    (s : ResolutionRequestStatus) (n m : String)
    → ((x : ResolutionRequest) → found ≡ some x → old ≡ x)
    → ((x : ResolutionRequest)
        → found ≡ some x
        → current ≡ true
        → old.object_meta.namespace ≡ n
        → old.object_meta.name ≡ m
        → Asked (some old) (with_status old s))
    → Change number Asked
        (revision (some old))
        (revision (write found current s (some old)).1)
        (stored n m (some old))
        (stored n m (write found current s (some old)).1)
write-Change Asked none current old s n m only asked = kept refl (omega arith)
write-Change Asked (some x) false old s n m only asked = kept refl (omega arith)
write-Change Asked (some x) true old s n m only asked =
    subst
      (λ y.
        Change number Asked (revision (some old)) (revision (some (with_status y s (bumped y))))
          (stored n m (some old)) (stored n m (some (with_status y s (bumped y)))))
      (only x refl) (rewritten Asked old s n m (asked x refl refl))

-- What is found in the slot is what is in it.
found_only :
    (ns name : String) (old x : ResolutionRequest) → stored ns name (some old) ≡ some x → old ≡ x
found_only ns name old x h = elim (if-cases (is_named ns name old) (some old) none (some x) h) [
  | inl (b, e) ↦ some_injective e
  | inr (b, e) ↦ cc
]

pub update_status-Change :
    (ns : String) (rr : ResolutionRequest) (c : Slot) (n m : String)
    → Change number
        (Update ns rr n m)
        (revision c)
        (revision (update_status ns rr c).1)
        (stored n m c)
        (stored n m (update_status ns rr c).1)
update_status-Change ns rr none n m = kept refl (omega arith)
update_status-Change ns rr (some old) n m =
    write-Change (Update ns rr n m) (stored ns rr.object_meta.name (some old))
      (version_of (stored ns rr.object_meta.name (some old)) == rr.object_meta.resource_version) old
      rr.status n m (found_only ns rr.object_meta.name old)
      (λ x h v e f.
        let (a, b) = stored_named ns rr.object_meta.name (some old) x h in
        let same = found_only ns rr.object_meta.name old x h in
        (
          old,
          sym e ∙ ap (λ r. r.object_meta.namespace) same ∙ a,
          sym f ∙ ap (λ r. r.object_meta.name) same ∙ b,
          refl,
          ap (λ r. r.object_meta.resource_version) same ∙ ap version_of (sym h) ∙ (eq_iff _ _).0 v,
          refl,
        ))

-- A patch, where what it found can only be the one object.
patch-Change :
    (Asked : Option ResolutionRequest → (String → ResolutionRequest) → Type 0)
    (q : Option StatusDataPatch) (found : Option ResolutionRequest) (old : ResolutionRequest)
    (n m : String)
    → ((x : ResolutionRequest) → found ≡ some x → old ≡ x)
    → ((p : StatusDataPatch) (x : ResolutionRequest)
        → q ≡ some p
        → found ≡ some x
        → old.object_meta.namespace ≡ n
        → old.object_meta.name ≡ m
        → Asked (some old) (with_status old (merge_status p old.status)))
    → Change number Asked
        (revision (some old))
        (revision (apply_patch q found (some old)).1)
        (stored n m (some old))
        (stored n m (apply_patch q found (some old)).1)
patch-Change Asked none found old n m only asked = kept refl (omega arith)
patch-Change Asked (some p) none old n m only asked = kept refl (omega arith)
patch-Change Asked (some p) (some x) old n m only asked =
    subst
      (λ y.
        Change number Asked (revision (some old))
          (revision (some (with_status y (merge_status p y.status) (bumped y))))
          (stored n m (some old))
          (stored n m (some (with_status y (merge_status p y.status) (bumped y)))))
      (only x refl) (rewritten Asked old (merge_status p old.status) n m (asked p x refl refl))

unfound : (q : Option StatusDataPatch) (c : Slot) → (apply_patch q none c).1 ≡ c
unfound none c = refl
unfound (some p) c = refl

pub patch_status-Change :
    (ns name : String) (p : StatusDataPatch) (doc : Json) (c : Slot) (n m : String)
    → marshal p ≡ ok doc
    → Change number
        (Patching ns name p n m)
        (revision c)
        (revision (patch_status ns name doc c).1)
        (stored n m c)
        (stored n m (patch_status ns name doc c).1)
patch_status-Change ns name p doc none n m h = rw (unfound (patch_of doc)) (kept refl (omega arith))
patch_status-Change ns name p doc (some old) n m h =
    patch-Change (Patching ns name p n m) (patch_of doc) (stored ns name (some old)) old n m
      (found_only ns name old)
      (λ p' x q g e f.
        let (a, b) = stored_named ns name (some old) x g in
        let same = found_only ns name old x g in
        (
          old,
          sym e ∙ ap (λ r. r.object_meta.namespace) same ∙ a,
          sym f ∙ ap (λ r. r.object_meta.name) same ∙ b,
          refl,
          ap (λ r. with_status old (merge_status r old.status))
              (some_injective (sym q ∙ patch_of-marshal p doc h)),
        ))

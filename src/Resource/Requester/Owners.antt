-- ===== src/Resource/Requester/Owners.antt =====
-- The owner references of a request.
use resolution.Prelude.{
  ◌≡◌, refl, ap, ◌∙◌, inl, inr, true, false, Bool-cases, Option, none, some, List, [], ◌∷◌, ◌++◌,
  eq_refl, =?_iff, arith,
}
use resolution.Api.{BoolPointer, OwnerReference, ResolutionRequest}
use resolution.Resource.{Request}
use resolution.Resource.Requester.{
  same_pointer, owner_refs_are_equal, is_owner, append_owner_reference,
}

same_pointer_self : (p : Option BoolPointer) → same_pointer p p ≡ true
unfolding same_pointer
same_pointer_self none = refl
same_pointer_self (some p) = (=?_iff p.address p.address).1 refl

owner_refs_are_equal_self : (o : OwnerReference) → owner_refs_are_equal o o ≡ true
unfolding owner_refs_are_equal
owner_refs_are_equal_self o = rw (
  eq_refl o.api_version,
  eq_refl o.kind,
  eq_refl o.name,
  eq_refl o.uid,
  same_pointer_self o.controller,
)

is_owner-append :
    (refs : List OwnerReference) (o : OwnerReference) → is_owner (refs ++ o ∷ []) o ≡ true
unfolding is_owner
is_owner-append [] o = ground (arith, owner_refs_are_equal_self o)
is_owner-append (r ∷ refs) o = ground (arith, is_owner-append refs o)

module _ (rr : ResolutionRequest) (req : Request) (o : OwnerReference)
    (owned : req.owner ≡ some o) where
  appended :
      is_owner rr.object_meta.owner_references o ≡ false
      → (append_owner_reference rr req).object_meta.owner_references
        ≡ rr.object_meta.owner_references ++ o ∷ []
  unfolding append_owner_reference
  appended new = ground arith

  unchanged : is_owner rr.object_meta.owner_references o ≡ true → append_owner_reference rr req ≡ rr
  unfolding append_owner_reference
  unchanged old = ground arith

  owner_after : is_owner (append_owner_reference rr req).object_meta.owner_references o ≡ true
  owner_after = elim (Bool-cases (is_owner rr.object_meta.owner_references o)) [
    | inl old ↦ ap (λ x. is_owner x.object_meta.owner_references o) (unchanged old) ∙ old
    | inr new ↦
        ap (λ l. is_owner l o) (appended new) ∙ is_owner-append rr.object_meta.owner_references o
  ]

-- The owner of a request is among the references after it was appended, and appending it again, with
-- the same pointer, changes nothing.
append_owner_reference-once :
    (rr : ResolutionRequest) (req : Request) (o : OwnerReference)
    → req.owner ≡ some o
    → (is_owner (append_owner_reference rr req).object_meta.owner_references o ≡ true)
      × (append_owner_reference (append_owner_reference rr req) req ≡ append_owner_reference rr req)
append_owner_reference-once rr req o owned =
    let after = owner_after rr req o owned in
    (after, unchanged (append_owner_reference rr req) req o owned after)

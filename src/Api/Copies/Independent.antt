-- ===== src/Api/Copies/Independent.antt =====
-- Deep copies of requests and of lists of requests, from copies of the types that they embed.
use resolution.Prelude.{ℕ, ◌≤◌, ◌<◌, String, ◌≡◌, ap, ◌∙◌, Option, List, arith}
use resolution.Api.{Bytes, TypeMeta}
use resolution.Api.Copies.{
  Heap, assign, Entries, RequestRef, ListRef, copy_spec, copy_status, copy_request, copy_list,
  deep_copy_request, deep_copy_list,
}
use resolution.Api.Copies.Laws.{Copying, map_copying, optional, pair}
use resolution.Api.Copies.Slices.{items}

-- A write of a map, as far as an object does not refer to it, is not read.
abbrev pub Valid : {T V : Type 0} → Copying T V → T → Heap → Type 0
Valid c t h = (i : ℕ) → c.Uses t i → i < h.next

module _ {T V : Type 0} (c : Copying T V) (t : T) (h : Heap) (valid : Valid c t h) (a b : ℕ)
    (m n : List (String × String)) (before : a < h.next) (after : h.next ≤ b) where
  unseen :
      (s : T) (g : Heap) (i : ℕ) (o : List (String × String))
      → ((j : ℕ) → c.Uses s j → (i ≡ j → ⊥))
      → c.read (assign i o g) s ≡ c.read g s
  unseen s g i o apart = c.read-local s g (assign i o g) (λ j u. ground (arith, apart j u))

  -- The copy is read as the original. A map that was there before can be written without a change to
  -- the copy, and one that was not without a change to the original.
  copy-independent :
      (c.read (c.copy_into t h).1 (c.copy_into t h).0 ≡ c.read h t)
      × (c.read (assign a m (c.copy_into t h).1) (c.copy_into t h).0 ≡ c.read h t)
      × (c.read (assign b n (c.copy_into t h).1) t ≡ c.read h t)
  copy-independent =
      let kept = c.read-local t h (c.copy_into t h).1 (λ i u. c.old t h i (valid i u)) in
      (
        c.same t h valid,
        unseen (c.copy_into t h).0 (c.copy_into t h).1 a m (λ j u e. omega (arith, c.fresh t h j u))
            ∙ c.same t h valid,
        unseen t (c.copy_into t h).1 b n (λ j u e. omega (arith, valid j u)) ∙ kept,
      )

module _ {O D VO VD : Type 0} (meta : Copying O VO) (duck : Copying D VD) where
  abbrev parts : RequestRef O D → O × (Option ℕ × D)
  parts rr = (rr.object_meta, (rr.spec.parameters, rr.status.duck))

  abbrev of_parts : Copying (O × (Option ℕ × D)) (VO × (Entries × VD))
  of_parts = pair meta (pair map_copying duck)

  abbrev copy_into : RequestRef O D → Heap → RequestRef O D × Heap
  copy_into rr h = copy_request meta.copy_into duck.copy_into rr h

  -- What is read of a request: the parts without maps as they are
  abbrev read : Heap → RequestRef O D → (TypeMeta × Bytes) × (VO × (Entries × VD))
  read h rr = ((rr.type_meta, rr.status.payload), of_parts.read h (parts rr))

  pub requests-grows : (rr : RequestRef O D) (h : Heap) → h.next ≤ (copy_into rr h).1.next
  unfolding copy_request copy_spec copy_status
  requests-grows rr h = of_parts.grows (parts rr) h

  pub requests-old :
      (rr : RequestRef O D) (h : Heap) (i : ℕ) → i < h.next → (copy_into rr h).1.maps i ≡ h.maps i
  unfolding copy_request copy_spec copy_status
  requests-old rr h i l = of_parts.old (parts rr) h i l

  pub requests-fresh :
      (rr : RequestRef O D) (h : Heap) (i : ℕ)
      → of_parts.Uses (parts (copy_into rr h).0) i
      → (h.next ≤ i) × (i < (copy_into rr h).1.next)
  unfolding copy_request copy_spec copy_status
  requests-fresh rr h i u = of_parts.fresh (parts rr) h i u

  pub requests-same :
      (rr : RequestRef O D) (h : Heap)
      → ((i : ℕ) → of_parts.Uses (parts rr) i → i < h.next)
      → read (copy_into rr h).1 (copy_into rr h).0 ≡ read h rr
  unfolding copy_request copy_spec copy_status
  requests-same rr h valid =
      ap (λ v. ((rr.type_meta, rr.status.payload), v)) (of_parts.same (parts rr) h valid)

  abbrev pub requests : Copying (RequestRef O D) ((TypeMeta × Bytes) × (VO × (Entries × VD)))
  requests = record {
    read = read;
    Uses = λ rr i. of_parts.Uses (parts rr) i;
    copy_into = copy_into;
    read-local = λ rr h h' e.
        ap (λ v. ((rr.type_meta, rr.status.payload), v)) (of_parts.read-local (parts rr) h h' e);
    grows = requests-grows;
    old = requests-old;
    fresh = requests-fresh;
    same = requests-same;
  }

  -- DeepCopy of a pointer to a request: the copy, nil of nil, is read as the request was. A later write
  -- of a map that was there before the copy does not change what is read of the copy, and one of a map
  -- that was not does not change what is read of the request; all this where the request refers only to
  -- maps that are there, and where the copies of the metadata and of the Knative status, which are
  -- other projects', do the same.
  pub deep_copy-request :
      (p : Option (RequestRef O D)) (h : Heap)
      → Valid (optional requests) p h
      → (a b : ℕ) (m n : List (String × String)) → a < h.next
      → h.next ≤ b
      → let (out, h') = deep_copy_request meta.copy_into duck.copy_into p h in
        ((optional requests).read h' out ≡ (optional requests).read h p)
        × ((optional requests).read (assign a m h') out ≡ (optional requests).read h p)
        × ((optional requests).read (assign b n h') p ≡ (optional requests).read h p)
  deep_copy-request p h valid a b m n before after =
      copy-independent (optional requests) p h valid a b m n before after

module _ {L O D VL VO VD : Type 0} (list_meta : Copying L VL) (meta : Copying O VO)
    (duck : Copying D VD) where
  abbrev list_parts : ListRef L O D → L × Option (List (RequestRef O D))
  list_parts l = (l.list_meta, l.items)

  abbrev of_list :
      Copying
        (L × Option (List (RequestRef O D)))
        (VL × Option (List ((TypeMeta × Bytes) × (VO × (Entries × VD)))))
  of_list = pair list_meta (optional (items (requests meta duck)))

  abbrev copy_list_into : ListRef L O D → Heap → ListRef L O D × Heap
  copy_list_into l h = copy_list list_meta.copy_into meta.copy_into duck.copy_into l h

  abbrev read_list :
      Heap
      → ListRef L O D
      → TypeMeta × (VL × Option (List ((TypeMeta × Bytes) × (VO × (Entries × VD)))))
  read_list h l = (l.type_meta, of_list.read h (list_parts l))

  pub lists-grows : (l : ListRef L O D) (h : Heap) → h.next ≤ (copy_list_into l h).1.next
  unfolding copy_list
  lists-grows l h = of_list.grows (list_parts l) h

  pub lists-old :
      (l : ListRef L O D) (h : Heap) (i : ℕ) → i < h.next → (copy_list_into l h).1.maps i ≡ h.maps i
  unfolding copy_list
  lists-old l h i b = of_list.old (list_parts l) h i b

  pub lists-fresh :
      (l : ListRef L O D) (h : Heap) (i : ℕ)
      → of_list.Uses (list_parts (copy_list_into l h).0) i
      → (h.next ≤ i) × (i < (copy_list_into l h).1.next)
  unfolding copy_list
  lists-fresh l h i u = of_list.fresh (list_parts l) h i u

  pub lists-same :
      (l : ListRef L O D) (h : Heap)
      → ((i : ℕ) → of_list.Uses (list_parts l) i → i < h.next)
      → read_list (copy_list_into l h).1 (copy_list_into l h).0 ≡ read_list h l
  unfolding copy_list
  lists-same l h valid = ap (λ v. (l.type_meta, v)) (of_list.same (list_parts l) h valid)

  -- Lists of requests are copied like requests.
  abbrev pub lists :
      Copying
        (ListRef L O D)
        (TypeMeta × (VL × Option (List ((TypeMeta × Bytes) × (VO × (Entries × VD))))))
  lists = record {
    read = read_list;
    Uses = λ l i. of_list.Uses (list_parts l) i;
    copy_into = copy_list_into;
    read-local = λ l h h' e. ap (λ v. (l.type_meta, v)) (of_list.read-local (list_parts l) h h' e);
    grows = lists-grows;
    old = lists-old;
    fresh = lists-fresh;
    same = lists-same;
  }

  -- The same of the deep copy of a list of requests, of its items and its metadata.
  pub deep_copy-list :
      (p : Option (ListRef L O D)) (h : Heap)
      → Valid (optional lists) p h
      → (a b : ℕ) (m n : List (String × String)) → a < h.next
      → h.next ≤ b
      → let (out, h') = deep_copy_list list_meta.copy_into meta.copy_into duck.copy_into p h in
        ((optional lists).read h' out ≡ (optional lists).read h p)
        × ((optional lists).read (assign a m h') out ≡ (optional lists).read h p)
        × ((optional lists).read (assign b n h') p ≡ (optional lists).read h p)
  deep_copy-list p h valid a b m n before after =
      copy-independent (optional lists) p h valid a b m n before after

-- ===== src/Api/Copies.antt =====
-- pkg/apis/resolution/v1alpha1/zz_generated.deepcopy.go: the deep copies of requests, on a heap of the
-- maps that they refer to. A slice is the list of its elements.
pub mod Laws
pub mod Slices
pub mod Independent
mod Tests
use resolution.Prelude.{
  ℕ, suc, String, Option, none, some, List, [], ◌∷◌, ◌=?◌, if◌then◌else◌, lookup,
}
use resolution.Api.{Bytes, TypeMeta}
use resolution.Framework.{copy}

-- The maps by their addresses, of which the next one is free.
pub record Heap : Type 0 where
  pub next : ℕ
  pub maps : ℕ → List (String × String)

-- A write of a map.
abbrev pub assign : ℕ → List (String × String) → Heap → Heap
assign a m h = record h { maps = λ i. if i =? a then m else h.maps i }

-- make(map[string]string), which is then filled
abbrev pub new_map : List (String × String) → Heap → ℕ × Heap
new_map m h = (h.next, record (assign h.next m h) { next = suc h.next })

-- What is read of a map: its values by their keys, or nil.
abbrev pub Entries : Type 0
Entries = Option (String → Option String)

abbrev pub entries_of : Heap → Option ℕ → Entries
entries_of h none = none
entries_of h (some a) = some (λ key. lookup key (h.maps a))

-- ResolutionRequestSpec, whose parameters are a map or nil
pub record SpecRef : Type 0 where
  pub parameters : Option ℕ

-- ResolutionRequestStatus, of which `D` is duckv1.Status
pub record StatusRef (D : Type 0) : Type 0 where
  pub duck : D
  pub payload : Bytes

-- ResolutionRequest, of which `O` is metav1.ObjectMeta
pub record RequestRef (O D : Type 0) : Type 0 where
  pub type_meta : TypeMeta
  pub object_meta : O
  pub spec : SpecRef
  pub status : StatusRef D

-- ResolutionRequestList, of which `L` is metav1.ListMeta
pub record ListRef (L O D : Type 0) : Type 0 where
  pub type_meta : TypeMeta
  pub list_meta : L
  pub items : Option (List (RequestRef O D))

module _ {T : Type 0} (copy_into : T → Heap → T × Heap) where
  -- A copy of what is not nil
  abbrev pub if_not_nil : Option T → Heap → Option T × Heap
  if_not_nil none h = (none, h)
  if_not_nil (some x) h = let (out, h') = copy_into x h in (some out, h')

  -- The loop over the items of a list
  unfoldable pub copy_items : List T → Heap → List T × Heap
  copy_items [] h = ([], h)
  copy_items (x ∷ items) h =
      let (x', h₁) = copy_into x h in let (items', h₂) = copy_items items h₁ in (x' ∷ items', h₂)

-- The maps' part of DeepCopyInto
abbrev pub copy_map : Option ℕ → Heap → Option ℕ × Heap
copy_map none h = (none, h)
copy_map (some a) h = let (b, h') = new_map (copy (h.maps a)) h in (some b, h')

-- DeepCopyInto of the spec, and of the status with the DeepCopyInto of the type that it embeds
unfoldable pub copy_spec : SpecRef → Heap → SpecRef × Heap
copy_spec spec h =
    let (parameters, h') = copy_map spec.parameters h in (record { parameters = parameters }, h')

module _ {D : Type 0} (copy_duck : D → Heap → D × Heap) where
  unfoldable pub copy_status : StatusRef D → Heap → StatusRef D × Heap
  copy_status status h =
      let (duck, h') = copy_duck status.duck h in (record status { duck = duck }, h')

module _ {O D : Type 0} (copy_meta : O → Heap → O × Heap) (copy_duck : D → Heap → D × Heap) where
  -- DeepCopyInto of a request
  unfoldable pub copy_request : RequestRef O D → Heap → RequestRef O D × Heap
  unfolding copy_spec copy_status
  copy_request rr h =
      let (object_meta, h₁) = copy_meta rr.object_meta h in
      let (spec, h₂) = copy_spec rr.spec h₁ in
      let (status, h₃) = copy_status copy_duck rr.status h₂ in
      (record rr { object_meta = object_meta; spec = spec; status = status }, h₃)

module _ {L O D : Type 0} (copy_list_meta : L → Heap → L × Heap) (copy_meta : O → Heap → O × Heap)
    (copy_duck : D → Heap → D × Heap) where
  -- DeepCopyInto of a list
  unfoldable pub copy_list : ListRef L O D → Heap → ListRef L O D × Heap
  unfolding copy_items
  copy_list l h =
      let (list_meta, h₁) = copy_list_meta l.list_meta h in
      let (items, h₂) = if_not_nil (copy_items (copy_request copy_meta copy_duck)) l.items h₁ in
      (record l { list_meta = list_meta; items = items }, h₂)

-- ResolutionRequestStatusFields
abbrev copy_fields : Bytes → Heap → Bytes × Heap
copy_fields payload h = (payload, h)

-- DeepCopy of the parts
abbrev deep_copy_fields : Option Bytes → Heap → Option Bytes × Heap
deep_copy_fields = if_not_nil copy_fields

abbrev deep_copy_spec : Option SpecRef → Heap → Option SpecRef × Heap
deep_copy_spec = if_not_nil copy_spec

abbrev deep_copy_status :
    {D : Type 0} → (D → Heap → D × Heap) → Option (StatusRef D) → Heap → Option (StatusRef D) × Heap
deep_copy_status copy_duck = if_not_nil (copy_status copy_duck)

-- DeepCopy, and DeepCopyObject, of a request and of a list
abbrev pub deep_copy_request :
    {O D : Type 0}
    → (O → Heap → O × Heap)
    → (D → Heap → D × Heap)
    → Option (RequestRef O D)
    → Heap
    → Option (RequestRef O D) × Heap
deep_copy_request copy_meta copy_duck = if_not_nil (copy_request copy_meta copy_duck)

abbrev pub deep_copy_list :
    {L O D : Type 0}
    → (L → Heap → L × Heap)
    → (O → Heap → O × Heap)
    → (D → Heap → D × Heap)
    → Option (ListRef L O D)
    → Heap
    → Option (ListRef L O D) × Heap
deep_copy_list copy_list_meta copy_meta copy_duck =
    if_not_nil (copy_list copy_list_meta copy_meta copy_duck)

-- ===== src/Api/Copies/Tests.antt =====
-- A copy of a request with parameters, labels and annotations.
use resolution.Prelude.{ℕ, ◌≡◌, Option, some, [], ◌∷◌, inl, inr, arith, if◌then◌else◌, ◌=?◌}
use resolution.Api.Copies.{Heap, assign, RequestRef, deep_copy_request}
use resolution.Api.Copies.Laws.{map_copying, optional}
use resolution.Api.Copies.Independent.{requests, Valid, deep_copy-request}

-- Three maps, of which the second is the parameters.
abbrev heap : Heap
heap = record { next = 3; maps = λ i. if i =? 1 then ("to", "you") ∷ [] else ("app", "demo") ∷ [] }

-- The metadata and the status are here their labels and their annotations.
abbrev request : RequestRef (Option ℕ) (Option ℕ)
request = record {
  type_meta = record { kind = "ResolutionRequest"; api_version = "resolution.tekton.dev/v1alpha1" };
  object_meta = some 0;
  spec = record { parameters = some 1 };
  status = record { duck = some 2; payload = 65 ∷ [] };
}

request-Valid : Valid (optional (requests map_copying map_copying)) (some request) heap
request-Valid i (inl e) = omega arith
request-Valid i (inr (inl e)) = omega arith
request-Valid i (inr (inr e)) = omega arith

deep_copy-request_example :
    let c = optional (requests map_copying map_copying) in
    let (out, after) =
      deep_copy_request map_copying.copy_into map_copying.copy_into (some request) heap in
    (c.read after out ≡ c.read heap (some request))
    × (c.read (assign 1 [] after) out ≡ c.read heap (some request))
    × (c.read (assign 4 [] after) (some request) ≡ c.read heap (some request))
deep_copy-request_example =
    deep_copy-request map_copying map_copying (some request) heap request-Valid 1 4 [] []
      (omega arith) (omega arith)

-- ===== src/Cluster.antt =====
-- The Kubernetes API server, as the generated clientset reaches it (pkg/client/clientset). It is no part
-- of this repository: `ApiServer` is an interface with the documented behaviour of the calls that
-- the program makes, over an abstract state of the cluster.
pub mod Slot
pub mod Memory
use resolution.Prelude.{
  String, ◌≡◌, refl, Option, none, some, List, [], ◌∷◌, GoMap, insert, entries, lookup,
  lookup-insert, ◌∙◌, arith, Result, ok, err, ℕ, ◌≤◌, ◌<◌,
}
use resolution.Common.Errors.{Error}
use resolution.Api.{Bytes, DuckStatus, ResolutionRequestStatus, ResolutionRequest}

-- pkg/resolver/framework/reconciler.go: statusDataPatch
pub record StatusDataPatch : Type 0 where
  pub annotations : GoMap
  pub payload : Bytes

-- A JSON document, of the shapes that the program marshals.
mutual
  pub data Json : Type 0 where
    null : Json
    text : String → Json
    ascii : Bytes → Json
    array : List String → Json
    object : Members → Json

  pub data Members : Type 0 where
    end : Members
    member : String → Json → Members → Members

abbrev pub string_members : List (String × String) → Members
string_members [] = end
string_members ((k, v) ∷ m) = member k (text v) (string_members m)

-- json.Marshal of a map: nil is null.
abbrev pub map_json : GoMap → Json
map_json none = null
map_json (some m) = object (string_members m)

-- The document of map[string]statusDataPatch{"status": patch}
abbrev pub document : StatusDataPatch → Json
document p = object (
    member "status"
      (object (member "annotations" (map_json p.annotations) (member "data" (ascii p.payload) end)))
      end)

-- json.Marshal of it, which has nothing to fail on
unfoldable pub marshal : StatusDataPatch → Result Error Json
marshal p = ok (document p)

pub marshal-document : (p : StatusDataPatch) → marshal p ≡ ok (document p)
unfolding marshal
marshal-document p = refl

abbrev insert_all : List (String × String) → List (String × String) → List (String × String)
insert_all [] m = m
insert_all ((k, v) ∷ new) m = insert k v (insert_all new m)

abbrev pub or_else : Option String → Option String → Option String
or_else (some v) o = some v
or_else none o = o

-- A lookup finds the inserted entry first.
pub lookup-insert_all :
    (j : String) (new m : List (String × String))
    → lookup j (insert_all new m) ≡ or_else (lookup j new) (lookup j m)
lookup-insert_all j [] m = refl
lookup-insert_all j ((k, v) ∷ new) m =
    lookup-insert k j v (insert_all new m) ∙ ground (arith, lookup-insert_all j new m)

-- A merge patch of a map: null removes it, and an object adds its members or replaces them.
abbrev pub merge_map : GoMap → GoMap → GoMap
merge_map none old = none
merge_map (some new) old = some (insert_all new (entries old))

abbrev pub merge_status : StatusDataPatch → ResolutionRequestStatus → ResolutionRequestStatus
merge_status p s = record {
  duck = record {
    observed_generation = s.duck.observed_generation;
    conditions = s.duck.conditions;
    annotations = merge_map p.annotations s.duck.annotations;
  };
  fields = record { payload = p.payload };
}

-- A write of the status changes the status and the resource version.
abbrev pub with_status : ResolutionRequest → ResolutionRequestStatus → String → ResolutionRequest
with_status rr s version = record rr {
  status = s;
  object_meta = record rr.object_meta { resource_version = version };
}

-- An object with what the server sets when it creates it: the time and the first generation
abbrev pub born : ResolutionRequest → ℕ → ℕ → ResolutionRequest
born rr time generation = record rr {
  object_meta = record rr.object_meta { creation_timestamp = time; generation = generation };
}

-- What a call comes to for one object, between two revisions of the store: the object stays, or it is
-- what was asked for, under a new version. `number` orders the versions.
pub data Change (number : String → ℕ)
    (Asked : Option ResolutionRequest → (String → ResolutionRequest) → Type 0) (lo hi : ℕ)
    (was is : Option ResolutionRequest) : Type 0 where
  kept : is ≡ was → lo ≤ hi → Change number Asked lo hi was is
  wrote :
      (new : String → ResolutionRequest) (v : String)
      → Asked was new
      → is ≡ some (new v)
      → lo < number v
      → number v ≤ hi
      → Change number Asked lo hi was is

-- The write of the object `n`/`m` that each of the calls asks for.
abbrev pub Creation :
    String
    → ResolutionRequest
    → String
    → String
    → Option ResolutionRequest
    → (String → ResolutionRequest)
    → Type 0
Creation ns rr n m was new =
    (time : ℕ) × (generation : ℕ) × (n ≡ ns)
    × (m ≡ rr.object_meta.name)
    × (was ≡ none)
    × (new ≡ with_status (born rr time generation) rr.status)

abbrev pub Update :
    String
    → ResolutionRequest
    → String
    → String
    → Option ResolutionRequest
    → (String → ResolutionRequest)
    → Type 0
Update ns rr n m was new =
    (old : ResolutionRequest) × (n ≡ ns)
    × (m ≡ rr.object_meta.name)
    × (was ≡ some old)
    × (old.object_meta.resource_version ≡ rr.object_meta.resource_version)
    × (new ≡ with_status old rr.status)

abbrev pub Patching :
    String
    → String
    → StatusDataPatch
    → String
    → String
    → Option ResolutionRequest
    → (String → ResolutionRequest)
    → Type 0
Patching ns name p n m was new =
    (old : ResolutionRequest) × (n ≡ ns)
    × (m ≡ name)
    × (was ≡ some old)
    × (new ≡ with_status old (merge_status p old.status))

pub record ApiServer (C : Type 0) : Type 0 where
  -- What is stored under a namespace and a name.
  pub stored : String → String → C → Option ResolutionRequest
  pub get : String → String → C → Result Error ResolutionRequest
  pub create : String → ResolutionRequest → C → Result Error ResolutionRequest × C
  pub update_status : String → ResolutionRequest → C → Result Error ResolutionRequest × C
  -- Patch(ctx, name, types.MergePatchType, document, "status")
  pub patch_status : String → String → Json → C → Result Error ResolutionRequest × C
  -- A successful read answers what is stored, under its own name.
  pub get-ok :
      (ns name : String) (c : C) (rr : ResolutionRequest)
      → get ns name c ≡ ok rr
      → stored ns name c ≡ some rr
  pub stored_name :
      (ns name : String) (c : C) (rr : ResolutionRequest)
      → stored ns name c ≡ some rr
      → (rr.object_meta.namespace ≡ ns) × (rr.object_meta.name ≡ name)
  -- A successful creation stores the object, with the server's time and generation.
  pub create-ok :
      (ns : String) (rr u : ResolutionRequest) (c : C)
      → (create ns rr c).0 ≡ ok u
      → (v : String) × (time : ℕ) × (generation : ℕ) × (stored ns rr.object_meta.name
            (create ns rr c).1
          ≡ some (with_status (born rr time generation) rr.status v))
  -- A successful update replaces the status of the object that was stored, and it succeeds only on
  -- the version that the writer had read.
  pub update_status-ok :
      (ns : String) (rr u old : ResolutionRequest) (c : C)
      → stored ns rr.object_meta.name c ≡ some old
      → (update_status ns rr c).0 ≡ ok u
      → (v : String) × (stored ns rr.object_meta.name (update_status ns rr c).1
          ≡ some (with_status old rr.status v))
  pub update_status-version :
      (ns : String) (rr u old : ResolutionRequest) (c : C)
      → stored ns rr.object_meta.name c ≡ some old
      → (update_status ns rr c).0 ≡ ok u
      → old.object_meta.resource_version ≡ rr.object_meta.resource_version
  -- A successful patch merges the document into the object that was stored.
  pub patch_status-ok :
      (ns name : String) (p : StatusDataPatch) (doc : Json) (u old : ResolutionRequest) (c : C)
      → marshal p ≡ ok doc
      → stored ns name c ≡ some old
      → (patch_status ns name doc c).0 ≡ ok u
      → (v : String) × (stored ns name (patch_status ns name doc c).1
          ≡ some (with_status old (merge_status p old.status) v))
  -- The store's revision, and the number of a version, which is that of the revision that wrote it.
  pub revision : C → ℕ
  pub number : String → ℕ
  pub stored-number :
      (ns name : String) (c : C) (rr : ResolutionRequest)
      → stored ns name c ≡ some rr
      → number rr.object_meta.resource_version ≤ revision c
  -- Whatever a call answers, it does to any object nothing but what it asks for.
  pub create-Change :
      (ns : String) (rr : ResolutionRequest) (c : C) (n m : String)
      → Change number
          (Creation ns rr n m)
          (revision c)
          (revision (create ns rr c).1)
          (stored n m c)
          (stored n m (create ns rr c).1)
  pub update_status-Change :
      (ns : String) (rr : ResolutionRequest) (c : C) (n m : String)
      → Change number
          (Update ns rr n m)
          (revision c)
          (revision (update_status ns rr c).1)
          (stored n m c)
          (stored n m (update_status ns rr c).1)
  pub patch_status-Change :
      (ns name : String) (p : StatusDataPatch) (doc : Json) (c : C) (n m : String)
      → marshal p ≡ ok doc
      → Change number
          (Patching ns name p n m)
          (revision c)
          (revision (patch_status ns name doc c).1)
          (stored n m c)
          (stored n m (patch_status ns name doc c).1)

-- ===== src/Cluster/Slot.antt =====
-- The calls of a concrete API server with room for one request.
pub mod Changes
use Prim.Native.String.{◌++◌}
use mathlib.Core.Path.{subst, subst₂}
use resolution.Prelude.{
  ℕ, String, ◌≡◌, refl, sym, Bool, true, false, ◌&&◌, Option, none, some, Result, ok, err, List, [],
  ◌∷◌, GoMap, ◌==◌, eq_iff, eq_refl, arith, if◌then◌else◌, ◌∙◌, ap,
}
use resolution.Common.Errors.{Error, api, not_found, already_exists, conflict, other_reason}
use resolution.Api.{ResolutionRequest, ResolutionRequestStatus}
use resolution.Cluster.{
  StatusDataPatch, Json, null, text, ascii, array, object, Members, end, member, document, marshal,
  merge_status, with_status, born, string_members, map_json,
}

abbrev pub Slot : Type 0
Slot = Option ResolutionRequest

abbrev pub is_named : String → String → ResolutionRequest → Bool
is_named ns name rr = (rr.object_meta.namespace == ns) && (rr.object_meta.name == name)

abbrev pub stored : String → String → Slot → Option ResolutionRequest
stored ns name none = none
stored ns name (some rr) = if is_named ns name rr then some rr else none

abbrev missing : Error
missing = api not_found "not found"

abbrev or_missing : Option ResolutionRequest → Result Error ResolutionRequest
or_missing none = err (api not_found "not found")
or_missing (some rr) = ok rr

abbrev pub get : String → String → Slot → Result Error ResolutionRequest
get ns name c = or_missing (stored ns name c)

abbrev pub bumped : ResolutionRequest → String
bumped rr = rr.object_meta.resource_version ++ "'"

-- The time of the server, whose clock stands still
abbrev pub clock : ℕ
clock = 1_700_000_000_000_000_000

abbrev pub fresh : ResolutionRequest → ResolutionRequest
fresh rr = with_status (born rr clock 1) rr.status (bumped rr)

abbrev pub create : String → ResolutionRequest → Slot → Result Error ResolutionRequest × Slot
create ns rr none =
    if rr.object_meta.namespace == ns
    then (ok (fresh rr), some (fresh rr))
    else (err (api other_reason "namespace mismatch"), none)
create ns rr (some old) = (err (api already_exists "already exists"), some old)

abbrev pub write :
    Option ResolutionRequest
    → Bool
    → ResolutionRequestStatus
    → Slot
    → Result Error ResolutionRequest × Slot
write none current s c = (err (api not_found "not found"), c)
write (some old) false s c = (err (api conflict "the object has been modified"), c)
write (some old) true s c =
    (ok (with_status old s (bumped old)), some (with_status old s (bumped old)))

abbrev pub version_of : Option ResolutionRequest → String
version_of none = ""
version_of (some rr) = rr.object_meta.resource_version

abbrev pub update_status : String → ResolutionRequest → Slot → Result Error ResolutionRequest × Slot
update_status ns rr c =
    let old = stored ns rr.object_meta.name c in
    write old (version_of old == rr.object_meta.resource_version) rr.status c

abbrev from_ok : Json → Result Error Json → Json
from_ok d (ok j) = j
from_ok d (err e) = d

-- The document read back.
abbrev pub strings : Members → List (String × String)
strings end = []
strings (member k (text v) ms) = (k, v) ∷ strings ms
strings (member k null ms) = strings ms
strings (member k (ascii v) ms) = strings ms
strings (member k (array v) ms) = strings ms
strings (member k (object v) ms) = strings ms

abbrev annotations_of : Json → GoMap
annotations_of (object ms) = some (strings ms)
annotations_of _ = none

abbrev pub patch_of : Json → Option StatusDataPatch
patch_of (object (member s (object (member x annotations (member d (ascii payload) end))) end)) =
    some (record { annotations = annotations_of annotations; payload = payload })
patch_of _ = none

abbrev pub apply_patch :
    Option StatusDataPatch → Option ResolutionRequest → Slot → Result Error ResolutionRequest × Slot
apply_patch none old c = (err (api other_reason "bad patch"), c)
apply_patch (some p) none c = (err (api not_found "not found"), c)
apply_patch (some p) (some old) c =
    let new = with_status old (merge_status p old.status) (bumped old) in (ok new, some new)

abbrev pub patch_status : String → String → Json → Slot → Result Error ResolutionRequest × Slot
patch_status ns name doc c = apply_patch (patch_of doc) (stored ns name c) c

strings-string_members : (m : List (String × String)) → strings (string_members m) ≡ m
strings-string_members [] = refl
strings-string_members ((k, v) ∷ m) = ap (λ r. (k, v) ∷ r) (strings-string_members m)

annotations_of-map_json : (m : GoMap) → annotations_of (map_json m) ≡ m
annotations_of-map_json none = refl
annotations_of-map_json (some m) = ap some (strings-string_members m)

patch_of-document : (p : StatusDataPatch) → patch_of (document p) ≡ some p
patch_of-document p =
    ap (λ m. some (record { annotations = m; payload = p.payload }))
      (annotations_of-map_json p.annotations)

pub stored_named :
    (ns name : String) (c : Slot) (rr : ResolutionRequest)
    → stored ns name c ≡ some rr
    → (rr.object_meta.namespace ≡ ns) × (rr.object_meta.name ≡ name)
stored_named ns name none rr h = cc
stored_named ns name (some r) rr h =
    ground (arith, eq_iff r.object_meta.namespace ns, eq_iff r.object_meta.name name)

stored_named_self :
    (ns name : String) (rr : ResolutionRequest)
    → rr.object_meta.namespace ≡ ns
    → rr.object_meta.name ≡ name
    → stored ns name (some rr) ≡ some rr
stored_named_self ns name rr e f =
    ground (arith, eq_iff rr.object_meta.namespace ns, eq_iff rr.object_meta.name name)

pub get_found :
    (ns name : String) (c : Slot) (rr : ResolutionRequest)
    → get ns name c ≡ ok rr
    → stored ns name c ≡ some rr
get_found ns name c rr h = ground arith

pub create_stores :
    (ns : String) (rr u : ResolutionRequest) (c : Slot)
    → (create ns rr c).0 ≡ ok u
    → (v : String) × (time : ℕ) × (generation : ℕ) × (stored ns rr.object_meta.name
          (create ns rr c).1
        ≡ some (with_status (born rr time generation) rr.status v))
create_stores ns rr u none h = (
  bumped rr,
  clock,
  1,
  ground (arith, eq_iff rr.object_meta.namespace ns, eq_refl rr.object_meta.name),
)
create_stores ns rr u (some old) h = cc

current_write :
    (old u : ResolutionRequest) (b : Bool) (s : ResolutionRequestStatus) (c : Slot)
    → (write (some old) b s c).0 ≡ ok u
    → (b ≡ true) × ((write (some old) b s c).1 ≡ some (with_status old s (bumped old)))
current_write old u false s c h = cc
current_write old u true s c h = (refl, refl)

-- What a successful write found and left.
written :
    (ns : String) (rr u old : ResolutionRequest) (c : Slot)
    → stored ns rr.object_meta.name c ≡ some old
    → (update_status ns rr c).0 ≡ ok u
    → ((old.object_meta.resource_version == rr.object_meta.resource_version) ≡ true)
      × ((update_status ns rr c).1 ≡ some (with_status old rr.status (bumped old)))
written ns rr u old c st =
    subst
      (λ o.
        (write o (version_of o == rr.object_meta.resource_version) rr.status c).0 ≡ ok u
        → ((old.object_meta.resource_version == rr.object_meta.resource_version) ≡ true)
          × ((write o (version_of o == rr.object_meta.resource_version) rr.status c).1
              ≡ some (with_status old rr.status (bumped old))))
      (sym st)
      (current_write old u (old.object_meta.resource_version == rr.object_meta.resource_version)
        rr.status c)

relabelled :
    (ns name : String) (old : ResolutionRequest) (s : ResolutionRequestStatus) (c : Slot)
    → stored ns name c ≡ some old
    → stored ns name (some (with_status old s (bumped old))) ≡ some (with_status old s (bumped old))
relabelled ns name old s c st =
    let (n, m) = stored_named ns name c old st in
    stored_named_self ns name (with_status old s (bumped old)) n m

pub update_stores :
    (ns : String) (rr u old : ResolutionRequest) (c : Slot)
    → stored ns rr.object_meta.name c ≡ some old
    → (update_status ns rr c).0 ≡ ok u
    → (v : String) × (stored ns rr.object_meta.name (update_status ns rr c).1
        ≡ some (with_status old rr.status v))
update_stores ns rr u old c st h = (
  bumped old,
  ap (λ x. stored ns rr.object_meta.name x) (written ns rr u old c st h).1
      ∙ relabelled ns rr.object_meta.name old rr.status c st,
)

pub update_version :
    (ns : String) (rr u old : ResolutionRequest) (c : Slot)
    → stored ns rr.object_meta.name c ≡ some old
    → (update_status ns rr c).0 ≡ ok u
    → old.object_meta.resource_version ≡ rr.object_meta.resource_version
update_version ns rr u old c st h = (eq_iff _ _).0 (written ns rr u old c st h).0

pub patch_of-marshal :
    (p : StatusDataPatch) (doc : Json) → marshal p ≡ ok doc → patch_of doc ≡ some p
unfolding marshal
patch_of-marshal p doc m = ap patch_of (sym (ap (from_ok (document p)) m)) ∙ patch_of-document p

patched :
    (ns name : String) (p : StatusDataPatch) (doc : Json) (old : ResolutionRequest) (c : Slot)
    → marshal p ≡ ok doc
    → stored ns name c ≡ some old
    → (patch_status ns name doc c).1
      ≡ some (with_status old (merge_status p old.status) (bumped old))
patched ns name p doc old c m st =
    subst₂
      (λ q o.
        (apply_patch q o c).1 ≡ some (with_status old (merge_status p old.status) (bumped old)))
      (sym (patch_of-marshal p doc m)) (sym st) refl

pub patch_stores :
    (ns name : String) (p : StatusDataPatch) (doc : Json) (u old : ResolutionRequest) (c : Slot)
    → marshal p ≡ ok doc
    → stored ns name c ≡ some old
    → (patch_status ns name doc c).0 ≡ ok u
    → (v : String) × (stored ns name (patch_status ns name doc c).1
        ≡ some (with_status old (merge_status p old.status) v))
patch_stores ns name p doc u old c m st h = (
  bumped old,
  ap (λ x. stored ns name x) (patched ns name p doc old c m st)
      ∙ relabelled ns name old (merge_status p old.status) c st,
)

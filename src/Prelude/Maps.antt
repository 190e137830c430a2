-- ===== src/Prelude/Maps.antt =====
-- Go's `map[string]V`: nil, or an association list whose first entry for a key counts. The order of
-- the entries is the order in which `range` happens to visit them.
use Prim.Native.String.{String}
use mathlib.Core.Path.{◌≡◌, refl}
use mathlib.Core.Option.{Option, none, some}
use mathlib.Core.List.{List, [], ◌∷◌}
use native.Mathlib.Omega.{arith}
use text.Mathlib.Text.{◌==◌}
use text.Mathlib.TextEquality.{eq_iff}
use resolution.Prelude.Tests.{if◌then◌else◌}

module _ {ℓ} {V : Type ℓ} where
  -- The value of the first entry for a key.
  abbrev pub lookup : String → List (String × V) → Option V
  lookup key [] = none
  lookup key ((first, value) ∷ others) =
      let later = lookup key others in if first == key then some value else later

  -- `m[key] = value`: in the key's place, or at the end.
  abbrev pub insert : String → V → List (String × V) → List (String × V)
  insert key value [] = (key, value) ∷ []
  insert key value ((first, old) ∷ others) =
      let replaced = insert key value others in
      if first == key then (key, value) ∷ others else (first, old) ∷ replaced

  -- An assignment is read back, and leaves the other keys.
  pub lookup-insert :
      (assigned key : String) (value : V) (m : List (String × V))
      → lookup key (insert assigned value m)
        ≡ (if assigned == key then some value else lookup key m)
  lookup-insert assigned key value [] = refl
  lookup-insert assigned key value ((first, old) ∷ others) =
      let hypothesis = lookup-insert assigned key value others in
      ground (arith, eq_iff first key, eq_iff first assigned, eq_iff assigned key)

abbrev pub GoMap : Type 0
GoMap = Option (List (String × String))

-- The entries that `range` visits; a nil map has none.
abbrev pub entries : GoMap → List (String × String)
entries none = []
entries (some m) = m

-- `v, ok := m[k]`
abbrev pub find : String → GoMap → Option String
find k m = lookup k (entries m)

abbrev pub or_empty : Option String → String
or_empty none = ""
or_empty (some v) = v

-- `m[k]`: the zero value on a missing key, and on a nil map.
abbrev pub index : String → GoMap → String
index k m = or_empty (find k m)

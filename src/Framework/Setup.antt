-- ===== src/Framework/Setup.antt =====
-- pkg/resolver/framework/controller.go and configstore.go: how a resolver is started, which requests
-- reach it and which configuration it sees.
pub mod Routing
pub mod Config
pub mod Starting
use Prim.Native.Char.{code}
use Prim.Native.String
use Prim.Native.String.{◌++◌}
use resolution.Prelude.{
  String, ◌≡◌, Bool, true, false, not, ◌&&◌, Option, none, some, List, [], ◌∷◌, GoMap, entries,
  find, index, lookup, length, is_nil, is_none, ◌==◌, ◌=?◌, if◌then◌else◌, quote, Result, ok, err,
  map,
}
use resolution.Common.{label_key_resolver_type}
use resolution.Common.Errors.{Error, plain, message}
use resolution.Common.Context.{Ctx}
use resolution.Api.{ResolutionRequest}
use resolution.Framework.{Resolver, Reconciler, ConfigStore, copy}

-- `lookup, has := labels[key]`, and that it is there with the value
has_value : Option String → String → Bool
has_value none val = false
has_value (some found) val = found == val

-- The loop over the selector: whether every entry is a label of the request.
selected : GoMap → List (String × String) → Bool
unfolding has_value
selected labels [] = true
selected labels ((key, val) ∷ selector) =
    let rest = selected labels selector in if has_value (find key labels) val then rest else false

-- filterResolutionRequestsBySelector; `none` is an object of another type.
unfoldable pub filter_by_selector : GoMap → Option ResolutionRequest → Bool
unfolding selected
filter_by_selector selector none = false
filter_by_selector selector (some rr) =
    if is_nil (entries rr.object_meta.labels)
    then false
    else selected rr.object_meta.labels (entries selector)

-- leaderAwareFuncs: the keys that PromoteFunc enqueues, from what the lister lists
unfoldable pub promote :
    Result Error (List ResolutionRequest) → Option Error × List (String × String)
promote (ok all) = (none, map (λ rr. (rr.object_meta.namespace, rr.object_meta.name)) all)
promote (err e) = (some e, [])

unfoldable pub error_missing_type_selector : Error
error_missing_type_selector =
    plain ("invalid resolver: minimum selector must include " ++ quote label_key_resolver_type)

-- validateResolver
unfoldable pub validate_resolver : Ctx → Resolver → Option Error
validate_resolver ctx r =
    let sel = r.get_selector ctx in
    if is_none sel
    then some error_missing_type_selector
    else if index label_key_resolver_type sel == ""
    then some error_missing_type_selector
    else none

-- strings.ReplaceAll(s, c, "") for a text of one ASCII character
without : String → String → String
without c String.[] = ""
without c (String.◌∷◌ ch s) =
    let rest = without c s in if String.◌∷◌ ch "" == c then rest else String.◌∷◌ ch rest

-- The fields of framework.Reconciler that a modifier may set: those that it reads, and the clock, which
-- is of a type `K` and may be nil.
pub record Modifiable (K : Type 0) : Type 0 where
  pub reconciler : Reconciler
  pub clock : Option K

abbrev pub ReconcilerModifier : Type 0 → Type 0
ReconcilerModifier K = Modifiable K → Modifiable K

-- The loop over the modifiers
abbrev apply_each : {K : Type 0} → List (ReconcilerModifier K) → ReconcilerModifier K
apply_each [] r = r
apply_each (mod_ ∷ modifiers) r = apply_each modifiers (mod_ r)

-- `if r.Clock == nil`, for a given real clock
abbrev or_real : {K : Type 0} → K → Option K → K
or_real real none = real
or_real real (some clock) = clock

unfoldable pub apply_modifiers_and_defaults :
    {K : Type 0} → K → List (ReconcilerModifier K) → ReconcilerModifier K
apply_modifiers_and_defaults real modifiers r =
    let modified = apply_each modifiers r in
    record modified { clock = some (or_real real modified.clock) }

-- cache.FilteringResourceEventHandler: what each event enqueues of the objects that the filter lets
-- through, if anything
pub record EventHandler : Type 0 where
  pub filter_func : Option ResolutionRequest → Bool
  pub add_func : Option (ResolutionRequest → ResolutionRequest)
  pub update_func : Option (ResolutionRequest → ResolutionRequest → ResolutionRequest)
  pub delete_func : Option (ResolutionRequest → ResolutionRequest)

-- What starting a resolver's controller comes to.
pub record Started (K : Type 0) : Type 0 where
  pub work_queue_name : String
  pub watched_config : Option String
  pub modified : Modifiable K
  pub handler : EventHandler

pub data Startup (K : Type 0) : Type 0 where
  panic : String → Startup K
  started : Started K → Startup K

-- watchConfigChanges: the ConfigMap that is watched, if the resolver asks for one
pub watch_config_changes : Ctx → Resolver → Result String (Option String)
watch_config_changes ctx r = elim r.get_config_name [
  | none ↦ ok none
  | some get_config_name ↦
      if get_config_name ctx == ""
      then err "resolver returned empty config name"
      else ok (some (get_config_name ctx))
]

unfoldable pub queue_name : String → String
unfolding without
queue_name name = "TektonResolverFramework." ++ without " " (without "/" name)

-- The store of a ConfigMap that is watched has loaded nothing yet.
abbrev new_store : Option String → Option ConfigStore
new_store none = none
new_store (some name) = some (record { loaded = none })

module _ {K : Type 0} (real : K) (lister : String → String → Result Error ResolutionRequest)
    (modifiers : List (ReconcilerModifier K)) (outer ctx : Ctx) (r : Resolver) where
  -- NewController from the call of watchConfigChanges on
  unfoldable pub finish : Option String → Started K
  unfolding queue_name filter_by_selector apply_modifiers_and_defaults
  finish watched = record {
    work_queue_name = queue_name (r.get_name ctx);
    watched_config = watched;
    modified = apply_modifiers_and_defaults real modifiers (record {
      reconciler = record { resolver = r; lister = lister; config_store = new_store watched };
      clock = none;
    });
    handler = record {
      filter_func = filter_by_selector (r.get_selector ctx);
      add_func = some (λ obj. obj);
      update_func = some (λ old_obj new_obj. new_obj);
      delete_func = none;
    };
  }

  -- NewController, where `initialized` is what the resolver's Initialize answers
  unfoldable pub new_controller : Option Error → Startup K
  unfolding finish watch_config_changes
  new_controller initialized = elim (validate_resolver outer r) [
    | some e ↦ panic (message e)
    | none ↦ elim initialized [
      | some e ↦ panic (message e)
      | none ↦ elim (watch_config_changes ctx r) [
        | err m ↦ panic m
        | ok watched ↦ started (finish watched)
      ]
    ]
  ]

-- DataFromConfigMap; `none` is a nil ConfigMap.
unfoldable pub data_from_config_map : Option GoMap → GoMap
data_from_config_map none = some []
data_from_config_map (some m) = some (copy (entries m))

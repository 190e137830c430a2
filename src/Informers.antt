-- ===== src/Informers.antt =====
-- pkg/client/informers/externalversions: the factory that shares one informer for every type of objects.
-- Its lock makes each of the operations a single step. The informers themselves are client-go's; a
-- type of objects is its name.
pub mod Access
pub mod Once
pub mod Requests
pub mod Shared
mod Tests
use Prim.Native.String.{◌++◌ as append}
use resolution.Prelude.{
  String, Bool, true, false, ◌&&◌, Option, none, some, List, [], ◌∷◌, ◌++◌, Result, ok, err, ◌==◌,
  if◌then◌else◌, lookup, insert,
}
use resolution.Prelude.Int.{ℤ}
use resolution.Common.Errors.{Error, plain}
use resolution.Informers.Access.{
  Group, ResolutionRequestInformer, new_group, v1alpha1, resolution_requests,
}

-- sharedInformerFactory: `K` is the type of its client, `O` that of list options, `I` that of informers.
-- The goroutines that run informers are added to it, each with its informer's type.
pub record Factory (K O I : Type 0) : Type 0 where
  pub client : K
  pub namespace : String
  pub tweak_list_options : Option (O → O)
  pub default_resync : ℤ
  pub custom_resync : List (String × ℤ)
  pub informers : List (String × I)
  pub started_informers : List (String × Bool)
  pub running : List (String × I)

-- A call of the client's List or Watch
pub record ListCall (K O : Type 0) : Type 0 where
  pub client : K
  pub namespace : String
  pub options : O

-- cache.ListWatch
pub record ListWatch (K O : Type 0) : Type 0 where
  pub list_func : O → ListCall K O
  pub watch_func : O → ListCall K O

-- schema.GroupVersionResource
pub record GroupVersionResource : Type 0 where
  pub group : String
  pub version : String
  pub resource : String

abbrev pub request_type : String
request_type = "v1alpha1.ResolutionRequest"

abbrev pub is_true : Option Bool → Bool
is_true (some true) = true
is_true _ = false

-- startedInformers[informerType], which is false on a missing key
abbrev pub is_started : String → List (String × Bool) → Bool
is_started t started = is_true (lookup t started)

abbrev or_default : {A : Type 0} → A → Option A → A
or_default d none = d
or_default d (some a) = a

-- SharedInformerOption
abbrev pub SharedInformerOption : Type 0 → Type 0 → Type 0 → Type 0
SharedInformerOption K O I = Factory K O I → Factory K O I

-- The loop of WithCustomResyncConfig
set_resync : List (String × ℤ) → List (String × ℤ) → List (String × ℤ)
set_resync [] custom = custom
set_resync ((k, v) ∷ config) custom = set_resync config (insert k v custom)

module _ {I : Type 0} where
  -- The loop of Start
  unfoldable pub start_each :
      List (String × I)
      → List (String × Bool) × List (String × I)
      → List (String × Bool) × List (String × I)
  start_each [] (started, running) = (started, running)
  start_each ((t, informer) ∷ informers) (started, running) = start_each informers (
      if is_started t started
      then (started, running)
      else (insert t true started, (t, informer) ∷ running))

  -- The informers that WaitForCacheSync waits for
  unfoldable pub started_only : List (String × Bool) → List (String × I) → List (String × I)
  started_only started [] = []
  started_only started ((t, informer) ∷ informers) =
      let rest = started_only started informers in
      if is_started t started then (t, informer) ∷ rest else rest

  abbrev pub synced_each : (I → Bool) → List (String × I) → List (String × Bool)
  synced_each has_synced [] = []
  synced_each has_synced ((t, informer) ∷ informers) =
      (t, has_synced informer) ∷ synced_each has_synced informers

module _ {K O I : Type 0} where
  unfoldable pub with_custom_resync_config : List (String × ℤ) → SharedInformerOption K O I
  unfolding set_resync
  with_custom_resync_config config f = record f {
    custom_resync = set_resync config f.custom_resync;
  }

  unfoldable pub with_tweak_list_options : Option (O → O) → SharedInformerOption K O I
  with_tweak_list_options tweak f = record f { tweak_list_options = tweak }

  unfoldable pub with_namespace : String → SharedInformerOption K O I
  with_namespace namespace f = record f { namespace = namespace }

  apply_all : List (SharedInformerOption K O I) → SharedInformerOption K O I
  apply_all [] f = f
  apply_all (opt ∷ options) f = apply_all options (opt f)

  -- NewSharedInformerFactoryWithOptions
  unfoldable pub new_factory_with_options :
      K → ℤ → List (SharedInformerOption K O I) → Factory K O I
  unfolding apply_all
  new_factory_with_options client default_resync options = apply_all options (record {
    client = client;
    namespace = "";
    tweak_list_options = none;
    default_resync = default_resync;
    custom_resync = [];
    informers = [];
    started_informers = [];
    running = [];
  })

  unfoldable pub new_factory : K → ℤ → Factory K O I
  unfolding new_factory_with_options
  new_factory client default_resync = new_factory_with_options client default_resync []

  -- NewFilteredSharedInformerFactory
  unfoldable pub new_filtered_factory : K → ℤ → String → Option (O → O) → Factory K O I
  unfolding new_factory_with_options with_namespace with_tweak_list_options
  new_filtered_factory client default_resync namespace tweak =
      new_factory_with_options client default_resync
        (with_namespace namespace ∷ with_tweak_list_options tweak ∷ [])

  -- Start
  unfoldable pub start : Factory K O I → Factory K O I
  unfolding start_each
  start f =
      let (started, running) = start_each f.informers (f.started_informers, f.running) in
      record f { started_informers = started; running = running }

  -- WaitForCacheSync, where `has_synced` is what cache.WaitForCacheSync answers for an informer
  unfoldable pub wait_for_cache_sync : (I → Bool) → Factory K O I → List (String × Bool)
  unfolding started_only
  wait_for_cache_sync has_synced f =
      synced_each has_synced (started_only f.started_informers f.informers)

  -- Resolution
  abbrev pub resolution_group : Factory K O I → Group O
  resolution_group f = new_group f.namespace f.tweak_list_options

  -- A new informer, with its resync period
  abbrev pub made : String → (K → ℤ → I) → Factory K O I → I
  made t new_func f = new_func f.client (or_default f.default_resync (lookup t f.custom_resync))

  -- InformerFor, from what the map has for the type
  abbrev pub found_or_made : String → (K → ℤ → I) → Factory K O I → Option I → I × Factory K O I
  found_or_made t new_func f (some informer) = (informer, f)
  found_or_made t new_func f none =
      (made t new_func f, record f { informers = insert t (made t new_func f) f.informers })

  unfoldable pub informer_for : String → (K → ℤ → I) → Factory K O I → I × Factory K O I
  informer_for t new_func f = found_or_made t new_func f (lookup t f.informers)

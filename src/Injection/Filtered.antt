-- ===== src/Injection/Filtered.antt =====
-- informers/factory/filtered and informers/resolution/v1alpha1/resolutionrequest/filtered: a factory and
-- an informer for each selector that a context has.
use resolution.Prelude.{ℕ, String, Bool, none, some, List, [], ◌∷◌, ◌++◌, Result, ok, err, ◌>>=◌}
use resolution.Prelude.Int.{ℤ}
use Prim.Native.String.{◌++◌ as append}
use resolution.Informers.{
  Factory, ListWatch, SharedInformerOption, with_tweak_list_options, new_factory_with_options,
}
use resolution.Informers.Requests.{request_informer}
use resolution.Injection.{
  label_key, filtered_factory_key, filtered_informer_key, Value, factory, label_selectors,
  of_factory, filtered_wrapper, Ctx, value, Scope, Factories, allocate, update, scope_options,
  get_client,
}

abbrev missing_label_key : String
missing_label_key = "Unable to fetch labelkey from context."

module _ {K : Type 0} where
  unfoldable pub with_selectors : Ctx K → List String → Ctx K
  with_selectors ctx selectors = (label_key, label_selectors selectors) ∷ ctx

  -- `ctx.Value(LabelKey{})`, and its test for nil
  abbrev pub selectors_of : Ctx K → Result String (List String)
  selectors_of ctx = elim (value label_key ctx) [
    | some (label_selectors selectors) ↦ ok selectors
    | _ ↦ err missing_label_key
  ]

  -- Get of the factories
  unfoldable pub get_filtered_factory : Ctx K → String → Result String ℕ
  get_filtered_factory ctx selector = elim (value (filtered_factory_key selector) ctx) [
    | some (factory id) ↦ ok id
    | _ ↦ err (
        append
          "Unable to fetch github.com/tektoncd/resolution/pkg/client/informers/externalversions.SharedInformerFactory with selector "
          (append selector " from context."))
  ]

  -- Get of the informers
  unfoldable pub get_filtered_informer : Ctx K → String → Result String (Value K)
  get_filtered_informer ctx selector = elim (value (filtered_informer_key selector) ctx) [
    | some v ↦ ok v
    | none ↦ err (
        append
          "Unable to fetch github.com/tektoncd/resolution/pkg/client/informers/externalversions/resolution/v1alpha1.ResolutionRequestInformer with selector "
          (append selector " from context."))
  ]

  -- The loop of withDynamicInformer
  filtered_wrappers : Bool → List String → Ctx K → Result String (Ctx K)
  unfolding get_client
  filtered_wrappers configured [] ctx = ok ctx
  filtered_wrappers configured (s ∷ selectors) ctx = get_client configured ctx >>= λ c.
      filtered_wrappers configured selectors (
        (
          filtered_informer_key s,
          filtered_wrapper (record { client = c; namespace = ""; selector = s }),
        )
        ∷ ctx)

  unfoldable pub with_dynamic_filtered_informer : Bool → Ctx K → Result String (Ctx K)
  unfolding filtered_wrappers
  with_dynamic_filtered_informer configured ctx =
      selectors_of ctx >>= λ selectors. filtered_wrappers configured selectors ctx

-- The loop's variable after its last iteration, from what it was before
abbrev pub last_of : String → List String → String
last_of s [] = s
last_of s (t ∷ ts) = last_of t ts

-- `select s` is the assignment of a label selector to list options. The function that tweaks the options
-- reads the loop's variable, which all iterations share (go 1.17 in go.mod): `variable` is what it is when
-- the options are tweaked, which is after the loop.
module _ {K O I : Type 0} (select : String → O → O) (sc : Scope) where
  unfoldable pub filtered_options : String → List (SharedInformerOption K O I)
  unfolding with_tweak_list_options scope_options
  filtered_options variable =
      scope_options sc ++ (with_tweak_list_options (some (select variable)) ∷ [])

  unfoldable pub filtered_factory : K → String → Factory K O I
  unfolding new_factory_with_options filtered_options
  filtered_factory c variable =
      new_factory_with_options c sc.resync_period (filtered_options variable)

  -- The loop of withInformerFactory
  unfoldable pub filtered_factories :
      K → String → List String → Ctx K → Factories K O I → Ctx K × Factories K O I
  unfolding filtered_factory
  filtered_factories c variable [] ctx h = (ctx, h)
  filtered_factories c variable (s ∷ selectors) ctx h =
      filtered_factories c variable selectors ((filtered_factory_key s, factory h.next) ∷ ctx)
        (allocate (filtered_factory c variable) h)

  unfoldable pub with_filtered_informer_factory :
      Bool → Ctx K → Factories K O I → Result String (Ctx K × Factories K O I)
  unfolding get_client filtered_factories
  with_filtered_informer_factory configured ctx h = get_client configured ctx >>= λ c.
      selectors_of ctx >>= λ selectors.
      ok (filtered_factories c (last_of "" selectors) selectors ctx h)

-- What withInformer returns, with the factories as it leaves them
pub record Injected (K O I : Type 0) : Type 0 where
  pub ctx : Ctx K
  pub informers : List I
  pub factories : Factories K O I

module _ {K O I : Type 0}
    (new_shared_index_informer : ListWatch K O → String → ℤ → List String → I) where
  -- The loop of withInformer
  unfoldable pub filtered_informers :
      List String → Ctx K → Factories K O I → Result String (Injected K O I)
  unfolding get_filtered_factory request_informer
  filtered_informers [] ctx h = ok (record { ctx = ctx; informers = []; factories = h })
  filtered_informers (s ∷ selectors) ctx h = get_filtered_factory ctx s >>= λ id.
      let (inf, f) = request_informer new_shared_index_informer (h.at id) in
      filtered_informers selectors ((filtered_informer_key s, of_factory id) ∷ ctx) (update id f h)
      >>= λ x. ok (record x { informers = inf ∷ x.informers })

  unfoldable pub with_filtered_informer : Ctx K → Factories K O I → Result String (Injected K O I)
  unfolding filtered_informers
  with_filtered_informer ctx h =
      selectors_of ctx >>= λ selectors. filtered_informers selectors ctx h

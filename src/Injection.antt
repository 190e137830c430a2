-- ===== src/Injection.antt =====
-- pkg/client/injection: the client, the informer factories and the informers that the generated code puts
-- into contexts (client.go, informers/factory and informers/resolution), with selectors in Filtered and over
-- a client without a cache in Wrapped. A factory in a context is a pointer into Factories.
pub mod Filtered
pub mod Wrapped
pub mod Serving
pub mod Selected
mod Tests
use resolution.Prelude.{
  ℕ, suc, String, Bool, true, false, Option, none, some, List, [], ◌∷◌, Result, ok, err, ◌>>=◌,
  ◌==◌, ◌=?◌, if◌then◌else◌,
}
use resolution.Prelude.Int.{ℤ}
use resolution.Informers.{
  Factory, ListWatch, SharedInformerOption, with_namespace, new_factory_with_options,
}
use resolution.Informers.Requests.{request_informer}

-- The keys of the packages client, factory, factory/filtered (Key and LabelKey), resolutionrequest and
-- resolutionrequest/filtered
pub data Key : Type 0 where
  client_key factory_key label_key informer_key : Key
  filtered_factory_key filtered_informer_key : String → Key

-- The wrapper of resolutionrequest.go and that of filtered/resolutionrequest.go
pub record Wrapper (K : Type 0) : Type 0 where
  pub client : K
  pub namespace : String
  pub resource_version : String

pub record FilteredWrapper (K : Type 0) : Type 0 where
  pub client : K
  pub namespace : String
  pub selector : String

pub data Value (K : Type 0) : Type 0 where
  client : K → Value K
  factory : ℕ → Value K
  label_selectors : List String → Value K
  -- What Resolution().V1alpha1().ResolutionRequests() of a factory is
  of_factory : ℕ → Value K
  wrapper : Wrapper K → Value K
  filtered_wrapper : FilteredWrapper K → Value K

abbrev pub Ctx : Type 0 → Type 0
Ctx K = List (Key × Value K)

abbrev pub same_key : Key → Key → Bool
same_key client_key client_key = true
same_key factory_key factory_key = true
same_key label_key label_key = true
same_key informer_key informer_key = true
same_key (filtered_factory_key s) (filtered_factory_key t) = s == t
same_key (filtered_informer_key s) (filtered_informer_key t) = s == t
same_key _ _ = false

-- ctx.Value(key)
abbrev pub value : {K : Type 0} → Key → Ctx K → Option (Value K)
value k [] = none
value k ((j, v) ∷ ctx) = let rest = value k ctx in if same_key j k then some v else rest

-- What injection and controller read from a context: the namespace that it is restricted to, if any, the
-- resync period and the resource version
pub record Scope : Type 0 where
  pub namespace_scope : Option String
  pub resync_period : ℤ
  pub resource_version : String

-- The factories that there are, each under its address
pub record Factories (K O I : Type 0) : Type 0 where
  pub next : ℕ
  pub at : ℕ → Factory K O I

module _ {K O I : Type 0} where
  abbrev pub put : ℕ → Factory K O I → (ℕ → Factory K O I) → ℕ → Factory K O I
  put id f at n = if n =? id then f else at n

  abbrev pub allocate : Factory K O I → Factories K O I → Factories K O I
  allocate f h = record { next = suc h.next; at = put h.next f h.at }

  abbrev pub update : ℕ → Factory K O I → Factories K O I → Factories K O I
  update id f h = record h { at = put id f h.at }

  -- The options that a namespace scope adds
  unfoldable pub scope_options : Scope → List (SharedInformerOption K O I)
  unfolding with_namespace
  scope_options sc = elim sc.namespace_scope [ none ↦ [] | some ns ↦ with_namespace ns ∷ [] ]

module _ {K : Type 0} where
  -- What a key has is of the type that its package puts there. Get of client.go, where `configured` is whether the context has a configuration
  unfoldable pub get_client : Bool → Ctx K → Result String K
  get_client configured ctx = elim (value client_key ctx) [
    | some (client c) ↦ ok c
    | _ ↦
        if configured
        then err
            "Unable to fetch github.com/tektoncd/resolution/pkg/client/clientset/versioned.Interface from context."
        else err
            "Unable to fetch github.com/tektoncd/resolution/pkg/client/clientset/versioned.Interface from context. This context is not the application context (which is typically given to constructors via sharedmain)."
  ]

  -- Get of informers/factory
  unfoldable pub get_factory : Ctx K → Result String ℕ
  get_factory ctx = elim (value factory_key ctx) [
    | some (factory id) ↦ ok id
    | _ ↦
        err
          "Unable to fetch github.com/tektoncd/resolution/pkg/client/informers/externalversions.SharedInformerFactory from context."
  ]

  -- Get of informers/resolution/v1alpha1/resolutionrequest
  unfoldable pub get_informer : Ctx K → Result String (Value K)
  get_informer ctx = elim (value informer_key ctx) [
    | some v ↦ ok v
    | none ↦
        err
          "Unable to fetch github.com/tektoncd/resolution/pkg/client/informers/externalversions/resolution/v1alpha1.ResolutionRequestInformer from context."
  ]

module _ {K O I : Type 0} (sc : Scope) where
  unfoldable pub with_informer_factory :
      Bool → Ctx K → Factories K O I → Result String (Ctx K × Factories K O I)
  unfolding get_client new_factory_with_options scope_options
  with_informer_factory configured ctx h = get_client configured ctx >>= λ c. ok (
    (factory_key, factory h.next) ∷ ctx,
    allocate (new_factory_with_options c sc.resync_period (scope_options sc)) h,
  )

  -- withInformer, with the informer that is started
  unfoldable pub with_informer :
      (ListWatch K O → String → ℤ → List String → I)
      → Ctx K
      → Factories K O I
      → Result String (Ctx K × I × Factories K O I)
  unfolding get_factory request_informer
  with_informer new_shared_index_informer ctx h = get_factory ctx >>= λ id.
      let (inf, f) = request_informer new_shared_index_informer (h.at id) in
      ok ((informer_key, of_factory id) ∷ ctx, inf, update id f h)

module _ {K : Type 0} (sc : Scope) where
  -- withDynamicInformer of the same package
  unfoldable pub with_dynamic_informer : Bool → Ctx K → Result String (Ctx K)
  unfolding get_client
  with_dynamic_informer configured ctx = get_client configured ctx >>= λ c. ok (
      (
        informer_key,
        wrapper (record { client = c; namespace = ""; resource_version = sc.resource_version }),
      )
      ∷ ctx)

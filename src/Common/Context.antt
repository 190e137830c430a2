-- ===== src/Common/Context.antt =====
-- pkg/common/context.go, and the values that pkg/resolver/framework/configstore.go keeps in a context.
use resolution.Prelude.{
  String, ◌≡◌, ◌∙◌, sym, ap, inl, inr, Option, none, some, Option-cases, Bool, true, false, List,
  [], ◌∷◌, GoMap, arith,
}

-- The two context keys of the program: common.requestNamespaceContextKey and
-- framework.resolverConfigKey, which are of different types and so differ.
pub data Key : Type 0 where
  request_namespace_key resolver_config_key : Key

pub data Value : Type 0 where
  text : String → Value
  config : GoMap → Value

-- A context is the list of its values, the latest first.
abbrev pub Ctx : Type 0
Ctx = List (Key × Value)

abbrev same_key : Key → Key → Bool
same_key request_namespace_key request_namespace_key = true
same_key resolver_config_key resolver_config_key = true
same_key _ _ = false

-- ctx.Value(key)
unfoldable pub value : Key → Ctx → Option Value
value k [] = none
value k ((j, v) ∷ ctx) = elim (same_key j k) [ true ↦ some v | false ↦ value k ctx ]

-- context.WithValue
abbrev with_value : Key → Value → Ctx → Ctx
with_value k v ctx = (k, v) ∷ ctx

-- InjectRequestNamespace
unfoldable pub inject_request_namespace : Ctx → String → Ctx
unfolding value
inject_request_namespace ctx namespace = elim (value request_namespace_key ctx) [
  | some _ ↦ ctx
  | none ↦ with_value request_namespace_key (text namespace) ctx
]

abbrev namespace_of : Option Value → String
namespace_of (some (text s)) = s
namespace_of _ = ""

-- RequestNamespace
unfoldable pub request_namespace : Ctx → String
unfolding value
request_namespace ctx = namespace_of (value request_namespace_key ctx)

-- InjectResolverConfigToContext
unfoldable pub inject_resolver_config : Ctx → GoMap → Ctx
inject_resolver_config ctx conf = with_value resolver_config_key (config conf) ctx

abbrev config_of : Option Value → GoMap
config_of (some (config m)) = m
config_of _ = some []

-- GetResolverConfigFromContext
unfoldable pub get_resolver_config : Ctx → GoMap
unfolding value
get_resolver_config ctx = config_of (value resolver_config_key ctx)

-- A context to which the program adds values in one of its two ways.
pub data Derived (ctx : Ctx) : Ctx → Type 0 where
  same : Derived ctx ctx
  namespaced : {c : Ctx} (n : String) → Derived ctx c → Derived ctx (inject_request_namespace c n)
  configured : {c : Ctx} (m : GoMap) → Derived ctx c → Derived ctx (inject_resolver_config c m)

-- The first namespace is read back, if the context had no namespace value before.
pub request_namespace-inject :
    (ctx : Ctx) (n : String)
    → value request_namespace_key ctx ≡ none
    → request_namespace (inject_request_namespace ctx n) ≡ n
unfolding request_namespace inject_request_namespace
request_namespace-inject ctx n h = ground arith

keeps_namespace :
    {ctx c : Ctx} (v : Value)
    → Derived ctx c
    → value request_namespace_key ctx ≡ some v
    → value request_namespace_key c ≡ some v
unfolding inject_request_namespace inject_resolver_config
keeps_namespace v same h = h
keeps_namespace v (namespaced n d) h = ground (arith, keeps_namespace v d h)
keeps_namespace v (configured m d) h = keeps_namespace v d h

inject_sets :
    (ctx : Ctx) (n : String)
    → (v : Value) × (value request_namespace_key (inject_request_namespace ctx n) ≡ some v)
unfolding inject_request_namespace value
inject_sets ctx n = elim (Option-cases (value request_namespace_key ctx)) [
  | inl e ↦ (text n, ground arith)
  | inr (v, e) ↦ (v, ground arith)
]

-- Once a namespace was injected, every context derived from that one has the same namespace,
-- whatever namespaces and configurations are injected into it later.
request_namespace-Derived :
    (ctx c : Ctx) (n : String)
    → Derived (inject_request_namespace ctx n) c
    → request_namespace c ≡ request_namespace (inject_request_namespace ctx n)
unfolding request_namespace
request_namespace-Derived ctx c n d =
    let (v, e) = inject_sets ctx n in ap namespace_of (keeps_namespace v d e ∙ sym e)

-- ===== src/Framework/Setup/Routing.antt =====
-- Which requests reach a resolver.
use resolution.Prelude.{
  String, ◌≡◌, ◌↔◌, refl, sym, ap, ◌∙◌, true, false, Option, none, some, List, [], ◌∷◌, GoMap,
  entries, find, index, lookup, or_empty, eq_iff, arith, is_nil, Bool, inl, inr, Option-cases,
  if◌then◌else◌, ◌≢◌,
}
use resolution.Common.{label_key_resolver_type}
use resolution.Common.Context.{Ctx}
use resolution.Api.{ResolutionRequest}
use resolution.Framework.{Resolver}
use resolution.Framework.Setup.{has_value, selected, filter_by_selector, validate_resolver}

-- Every entry of a selector is a label.
abbrev pub Carries : GoMap → List (String × String) → Type 0
Carries labels [] = Unit
Carries labels ((key, val) ∷ selector) = (find key labels ≡ some val) × Carries labels selector

has_value_iff : (o : Option String) (v : String) → (has_value o v ≡ true) ↔ (o ≡ some v)
unfolding has_value
has_value_iff none v = ground arith
has_value_iff (some w) v = ground (arith, eq_iff w v)

selected→Carries :
    (labels : GoMap) (s : List (String × String)) → selected labels s ≡ true → Carries labels s
unfolding selected
selected→Carries labels [] h = tt
selected→Carries labels ((key, val) ∷ s) h =
    ground (arith, has_value_iff (find key labels) val, selected→Carries labels s)

Carries→selected :
    (labels : GoMap) (s : List (String × String)) → Carries labels s → selected labels s ≡ true
unfolding selected
Carries→selected labels [] h = refl
Carries→selected labels ((key, val) ∷ s) h =
    rw ((has_value_iff (find key labels) val).1 h.0) (Carries→selected labels s h.1)

non_empty_and :
    (l : List (String × String)) (b : Bool)
    → ((if is_nil l then false else b) ≡ true) ↔ ((l ≢ []) × (b ≡ true))
non_empty_and [] b = (λ h. cc, λ h. absurd (h.0 refl))
non_empty_and (x ∷ l) b = (λ h. ((λ e. cc), h), λ h. h.1)

-- A request passes the filter exactly when it has labels and carries every entry of the selector.
pub filter_by_selector_iff :
    (selector : GoMap) (rr : ResolutionRequest)
    → (filter_by_selector selector (some rr) ≡ true)
      ↔ ((entries rr.object_meta.labels ≢ []) × Carries rr.object_meta.labels (entries selector))
unfolding filter_by_selector
filter_by_selector_iff selector rr =
    let both =
      non_empty_and (entries rr.object_meta.labels)
        (selected rr.object_meta.labels (entries selector)) in
    (
      λ h.
          let (n, c) = both.0 h in (n, selected→Carries rr.object_meta.labels (entries selector) c),
      λ h. both.1 (h.0, Carries→selected rr.object_meta.labels (entries selector) h.1),
    )

first_entry :
    (labels : GoMap) (key v : String) (s : List (String × String))
    → Carries labels s
    → lookup key s ≡ some v
    → find key labels ≡ some v
first_entry labels key v [] h l = cc
first_entry labels key v ((j, w) ∷ s) h l = ground (arith, eq_iff j key, first_entry labels key v s)

validated_type :
    (ctx : Ctx) (r : Resolver)
    → validate_resolver ctx r ≡ none
    → index label_key_resolver_type (r.get_selector ctx) ≢ ""
unfolding validate_resolver
validated_type ctx r v e =
    ground (arith, eq_iff (index label_key_resolver_type (r.get_selector ctx)) "")

type_of_filtered :
    (ctx : Ctx) (r : Resolver) (rr : ResolutionRequest)
    → validate_resolver ctx r ≡ none
    → filter_by_selector (r.get_selector ctx) (some rr) ≡ true
    → index label_key_resolver_type (r.get_selector ctx)
      ≡ index label_key_resolver_type rr.object_meta.labels
type_of_filtered ctx r rr v f =
    elim (Option-cases (find label_key_resolver_type (r.get_selector ctx))) [
      | inl e ↦ absurd (validated_type ctx r v (ap or_empty e))
      | inr (t, e) ↦ ap or_empty (
          e
          ∙ sym (
              first_entry rr.object_meta.labels _ t _
                ((filter_by_selector_iff (r.get_selector ctx) rr).0 f).1 e))
    ]

-- Two resolvers that both pass the check of their selectors, and of which one gets a request that the
-- other gets too, have the same type: the request's label.
pub filter-same_type :
    (ctx : Ctx) (p q : Resolver) (rr : ResolutionRequest)
    → validate_resolver ctx p ≡ none
    → validate_resolver ctx q ≡ none
    → filter_by_selector (p.get_selector ctx) (some rr) ≡ true
    → filter_by_selector (q.get_selector ctx) (some rr) ≡ true
    → (index label_key_resolver_type (p.get_selector ctx)
        ≡ index label_key_resolver_type rr.object_meta.labels)
      × (index label_key_resolver_type (q.get_selector ctx)
          ≡ index label_key_resolver_type rr.object_meta.labels)
      × (index label_key_resolver_type rr.object_meta.labels ≢ "")
filter-same_type ctx p q rr vp vq fp fq =
    let tp = type_of_filtered ctx p rr vp fp in
    (tp, type_of_filtered ctx q rr vq fq, λ e. validated_type ctx p vp (tp ∙ e))

-- ===== src/Injection/Tests.antt =====
-- Two selectors in a context that is restricted to a namespace.
use resolution.Prelude.{String, ◌≡◌, refl, true, some, [], ◌∷◌, List, ok}
use resolution.Prelude.Int.{ℤ, pos}
use resolution.Informers.{ListWatch, new_filtered_factory}
use resolution.Injection.{Ctx, client_key, client, Scope, Factories}
use resolution.Injection.Filtered.{Injected, with_selectors}
use resolution.Injection.Selected.{GivesLast, with_informers, with_informers-last}
use resolution.Lister.{Every}

-- List options are a label selector, and an informer is what it lists from.
abbrev listed : ListWatch String String → String → ℤ → List String → String × String
listed lw t resync indexers = let call = lw.list_func "" in (call.namespace, call.options)

abbrev select : String → String → String
select selector options = selector

abbrev scope : Scope
scope = record { namespace_scope = some "team"; resync_period = pos 36_000; resource_version = "7" }

abbrev no_factories : Factories String String (String × String)
no_factories = record {
  next = 3;
  at = λ n. new_filtered_factory "other" (pos 0) "" (some (select "app"));
}

abbrev ctx : Ctx String
ctx = with_selectors ((client_key, client "tekton") ∷ []) ("type=git" ∷ "type=bundles" ∷ [])

with_informers-last_example :
    (x : Injected String String (String × String)) × (with_informers listed select scope "tekton"
        true ctx no_factories
      ≡ ok x)
    × (x.informers ≡ ("team", "type=bundles") ∷ ("team", "type=bundles") ∷ [])
    × Every
        (GivesLast listed select scope "tekton" "type=bundles" x)
        ("type=git" ∷ "type=bundles" ∷ [])
unfolding with_selectors
with_informers-last_example =
    with_informers-last listed select scope "tekton" true ("type=git" ∷ "type=bundles" ∷ []) ctx
      no_factories refl refl

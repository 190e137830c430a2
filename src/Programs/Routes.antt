-- ===== src/Programs/Routes.antt =====
-- Which requests reach which of the resolvers' programs.
use resolution.Prelude.{
  String, ◌≡◌, ◌≢◌, ◌↔◌, ◌==◌, refl, sym, ap, ◌∙◌, true, none, some, Option, [], ◌∷◌, GoMap, find,
  entries, index, false, Result, arith, eq_iff,
}
use resolution.Prelude.Int.{ℤ}
use resolution.Common.{label_key_resolver_type}
use resolution.Common.Context.{Ctx}
use resolution.Common.Errors.{Error}
use resolution.Api.{ResolutionRequest}
use resolution.Bundle.{Registry, bundle_resolver}
use resolution.Demo.{demo_resolver}
use resolution.Framework.{Resolver}
use resolution.Framework.Setup.{
  Started, Startup, started, finish, new_controller, filter_by_selector,
}
use resolution.Framework.Setup.Routing.{filter_by_selector_iff}
use resolution.Framework.Setup.Starting.{new_controller_iff, Watches}
use resolution.Git.{GitLibrary, git_resolver}
use resolution.Programs.{git_program, bundle_program, demo_program}

-- The filter of a selector of one type
type_filter_iff :
    (t : String) (rr : ResolutionRequest)
    → (filter_by_selector (some ((label_key_resolver_type, t) ∷ [])) (some rr) ≡ true)
      ↔ (find label_key_resolver_type rr.object_meta.labels ≡ some t)
type_filter_iff t rr =
    let f = filter_by_selector_iff (some ((label_key_resolver_type, t) ∷ [])) rr in
    (λ h. (f.0 h).1.0, λ h. f.1 (labelled rr.object_meta.labels h, (h, tt)))
  where
    labelled : (labels : GoMap) → find label_key_resolver_type labels ≡ some t → entries labels ≢ []
    labelled none h e = cc
    labelled (some []) h e = cc
    labelled (some (x ∷ m)) h e = cc

differ : (s : String) → (s == "") ≡ false → s ≢ ""
differ s h e = ground (arith, eq_iff s "")

index_self :
    (t : String) → index label_key_resolver_type (some ((label_key_resolver_type, t) ∷ [])) ≡ t
index_self t = refl

module _ {K : Type 0} (real : K) (lister : String → String → Result Error ResolutionRequest)
    (ctx : Ctx) where
  -- A program whose handler lets through the requests of a type
  abbrev pub Serves : String → Startup K → Type 0
  Serves t program =
      (s : Started K) × (program ≡ started s)
      × ((rr : ResolutionRequest)
          → (s.handler.filter_func (some rr) ≡ true)
            ↔ (find label_key_resolver_type rr.object_meta.labels ≡ some t))

  started-Serves :
      (r : Resolver) (t : String) (watched : Option String)
      → ((c : Ctx) → r.get_selector c ≡ some ((label_key_resolver_type, t) ∷ []))
      → (t == "") ≡ false
      → Watches ctx r.get_config_name watched
      → Serves t (new_controller real lister [] [] ctx r none)
  unfolding finish
  started-Serves r t watched selects named watches = (
    finish real lister [] [] ctx r watched,
    (new_controller_iff real lister [] [] ctx r none _).1 (
      λ h.
          differ t named
            (sym (index_self t) ∙ sym (ap (λ m. index label_key_resolver_type m) (selects [])) ∙ h),
      refl,
      (watched, watches, refl),
    ),
    λ rr. rw (selects ctx) (type_filter_iff t rr),
  )

  -- In every context in which sharedmain starts them, the programs of the git resolver, of the bundle
  -- resolver and of the demo start their controllers, and an informer's events reach them for exactly the
  -- requests with the type label "git", "bundles" and "demo".
  pub programs-Serves :
      {R W H F : Type 0} (g : GitLibrary R W H F) (parse : String → Result Error ℤ)
      {Ref Keychain Image Layer Reader Tar : Type 0}
      (b : Registry Ref Keychain Image Layer Reader Tar)
      → Serves "git" (git_program real lister ctx g parse)
        × Serves "bundles" (bundle_program real lister ctx b)
        × Serves "demo" (demo_program real lister ctx)
  unfolding git_program bundle_program demo_program demo_resolver
  programs-Serves g parse b = (
    started-Serves (git_resolver g parse) "git" (some "git-resolver-config") (λ c. refl) refl
        (differ "git-resolver-config" refl, refl),
    started-Serves (bundle_resolver b) "bundles" none (λ c. refl) refl refl,
    started-Serves demo_resolver "demo" none (λ c. refl) refl refl,
  )

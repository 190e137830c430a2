-- ===== src/Framework/Setup/Starting.antt =====
-- When a resolver's controller starts, and with what.
use resolution.Prelude.{
  String, ◌≡◌, ◌≢◌, ◌↔◌, refl, sym, ap, ◌∙◌, is_none, Option, none, some, Result, ok, err, ◌==◌,
  eq_iff, index, arith, GoMap, if◌then◌else◌, ok_injective, List,
}
use resolution.Common.{label_key_resolver_type}
use resolution.Common.Errors.{Error, message}
use resolution.Common.Context.{Ctx}
use resolution.Api.{ResolutionRequest}
use resolution.Framework.{Resolver}
use resolution.Framework.Setup.{
  validate_resolver, watch_config_changes, new_controller, Startup, Started, started, panic,
  error_missing_type_selector, ReconcilerModifier, finish,
}

-- The ConfigMap that is watched: none if the resolver has no name for one, and never one with no name.
abbrev pub Watches : Ctx → Option (Ctx → String) → Option String → Type 0
Watches ctx none watched = watched ≡ none
Watches ctx (some name) watched = (name ctx ≢ "") × (watched ≡ some (name ctx))

validate_resolver_iff :
    (ctx : Ctx) (r : Resolver)
    → (validate_resolver ctx r ≡ none) ↔ (index label_key_resolver_type (r.get_selector ctx) ≢ "")
unfolding validate_resolver
validate_resolver_iff ctx r = tested (r.get_selector ctx)
  where
    tested :
        (m : GoMap)
        → ((if is_none m
              then some error_missing_type_selector
              else if index label_key_resolver_type m == ""
              then some error_missing_type_selector
              else none)
            ≡ none)
          ↔ (index label_key_resolver_type m ≢ "")
    tested none = (λ h. cc, λ h. absurd (h refl))
    tested (some l) = ground (arith, eq_iff (index label_key_resolver_type (some l)) "")

watch_iff :
    (ctx : Ctx) (r : Resolver) (watched : Option String)
    → (watch_config_changes ctx r ≡ ok watched) ↔ Watches ctx r.get_config_name watched
unfolding watch_config_changes
watch_iff ctx r watched = named r.get_config_name
  where
    outcome : Option (Ctx → String) → Result String (Option String)
    outcome none = ok none
    outcome (some f) =
        if f ctx == "" then err "resolver returned empty config name" else ok (some (f ctx))

    named : (o : Option (Ctx → String)) → (outcome o ≡ ok watched) ↔ Watches ctx o watched
    named none = ground arith
    named (some f) = ground (arith, eq_iff (f ctx) "")

module _ {K : Type 0} (real : K) (lister : String → String → Result Error ResolutionRequest)
    (modifiers : List (ReconcilerModifier K)) (outer ctx : Ctx) (r : Resolver) where
  -- The three tests, in the code's order.
  abbrev tested : Option Error → Option Error → Result String (Option String) → Startup K
  tested v i w = elim v [
    | some e ↦ panic (message e)
    | none ↦ elim i [
      | some e ↦ panic (message e)
      | none ↦ elim w [
        | err m ↦ panic m
        | ok watched ↦ started (finish real lister modifiers outer ctx r watched)
      ]
    ]
  ]

  same_start : {x y : Started K} → ◌≡◌ {A = Startup K} (started x) (started y) → x ≡ y
  same_start h = cc

  fails :
      {m : String} {w : Option String} → ◌≡◌ {A = Result String (Option String)} (err m) (ok w) → ⊥
  fails h = cc

  tested_iff :
      (v i : Option Error) (w : Result String (Option String)) (s : Started K)
      → (tested v i w ≡ started s)
        ↔ (v ≡ none)
          × (i ≡ none)
          × ((watched : Option String) × (w ≡ ok watched)
              × (s ≡ finish real lister modifiers outer ctx r watched))
  tested_iff (some e) i w s = (λ h. cc, λ h. cc)
  tested_iff none (some e) w s = (λ h. cc, λ h. cc)
  tested_iff none none (err m) s = (λ h. cc, λ h. absurd (fails (h.2.1)))
  tested_iff none none (ok watched) s = (
    λ h. (refl, refl, (watched, refl, sym (same_start h))),
    λ h.
        ap (λ w. started (finish real lister modifiers outer ctx r w)) (ok_injective h.2.1)
        ∙ ap started (sym h.2.2),
  )

  new_controller-tested :
      (initialized : Option Error)
      → new_controller real lister modifiers outer ctx r initialized
        ≡ tested (validate_resolver outer r) initialized (watch_config_changes ctx r)
  unfolding new_controller
  new_controller-tested initialized = refl

  -- A controller starts exactly when the resolver's selector has a type that is not empty, Initialize
  -- returns no error and a ConfigMap that it wants has a name; it then is what NewController makes of
  -- that ConfigMap.
  pub new_controller_iff :
      (initialized : Option Error) (s : Started K)
      → (new_controller real lister modifiers outer ctx r initialized ≡ started s)
        ↔ (index label_key_resolver_type (r.get_selector outer) ≢ "")
          × (initialized ≡ none)
          × ((watched : Option String) × Watches ctx r.get_config_name watched
              × (s ≡ finish real lister modifiers outer ctx r watched))
  new_controller_iff initialized s =
      let e = new_controller-tested initialized in
      let t = tested_iff (validate_resolver outer r) initialized (watch_config_changes ctx r) s in
      (
        λ h.
            let (v, i, (watched, w, q)) = t.0 (sym e ∙ h) in
            ((validate_resolver_iff outer r).0 v, i, (watched, (watch_iff ctx r watched).0 w, q)),
        λ h.
            e
            ∙ t.1 (
              (validate_resolver_iff outer r).1 h.0,
              h.1,
              (h.2.0, (watch_iff ctx r h.2.0).1 h.2.1, h.2.2),
            ),
      )

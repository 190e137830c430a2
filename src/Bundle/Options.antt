-- ===== src/Bundle/Options.antt =====
-- Which parameters the bundle resolver takes.
use resolution.Prelude.{
  String, ◌≡◌, ◌↔◌, ap, ◌∙◌, sym, Option, none, some, GoMap, find, ok, first_step, next_step,
  ok_injective,
}
use resolution.Bundle.{
  RequestOptions, Registry, demand, or_default, options_from_params, param_bundle, param_name,
  param_kind, param_service_account, default_service_account_name,
}

pub demand-ok : (text v : String) (o : Option String) → demand text o ≡ ok v → o ≡ some v
demand-ok text v none h = cc
demand-ok text v (some w) h = ap some (ok_injective h)

module _ {Ref Keychain Image Layer Reader Tar : Type 0}
    (g : Registry Ref Keychain Image Layer Reader Tar) (params : GoMap) where
  -- A bundle, which can be parsed, a name and a kind, and the account that is given or the default.
  pub record Parsed (opts : RequestOptions) : Type 0 where
    pub reference : Ref
    has_bundle : find param_bundle params ≡ some opts.bundle
    pub parses : g.parse_reference opts.bundle ≡ ok reference
    has_name : find param_name params ≡ some opts.entry_name
    has_kind : find param_kind params ≡ some opts.kind
    pub account :
        or_default default_service_account_name (find param_service_account params)
        ≡ opts.service_account

  pub options→Parsed :
      (opts : RequestOptions) → options_from_params g params ≡ ok opts → Parsed opts
  unfolding options_from_params
  options→Parsed opts h =
      let (bundle, b, h1) = next_step (demand _ (find param_bundle params)) _ opts h in
      let (reference, p, h2) = first_step _ (g.parse_reference bundle) _ opts h1 in
      let (name, n, h3) = next_step (demand _ (find param_name params)) _ opts h2 in
      let (kind, k, h4) = next_step (demand _ (find param_kind params)) _ opts h3 in
      let account = or_default default_service_account_name (find param_service_account params) in
      let same : record {
        service_account = account;
        bundle = bundle;
        entry_name = name;
        kind = kind;
      }
          ≡ opts =
        ok_injective h4 in
      record {
        reference = reference;
        has_bundle = demand-ok _ bundle _ b ∙ ap (λ o. some o.bundle) same;
        parses = ap (λ o. g.parse_reference o.bundle) (sym same) ∙ p;
        has_name = demand-ok _ name _ n ∙ ap (λ o. some o.entry_name) same;
        has_kind = demand-ok _ kind _ k ∙ ap (λ o. some o.kind) same;
        account = ap (λ o. o.service_account) same;
      }

  Parsed→options : (opts : RequestOptions) → Parsed opts → options_from_params g params ≡ ok opts
  unfolding options_from_params
  Parsed→options opts p = rw p.has_bundle (
      rw p.parses (
        rw p.has_name (
          rw p.has_kind (
            ap
              (λ a. ok (record {
                service_account = a;
                bundle = opts.bundle;
                entry_name = opts.entry_name;
                kind = opts.kind;
              }))
              p.account))))

  -- The options of a request are returned exactly when its bundle can be parsed, and it has a name
  -- and a kind; they are these, and the service account that it has, or the default one.
  options_from_params_iff :
      (opts : RequestOptions) → (options_from_params g params ≡ ok opts) ↔ Parsed opts
  options_from_params_iff opts = (options→Parsed opts, Parsed→options opts)

-- ===== src/Git/Timeout.antt =====
-- The timeout of a fetch, from the watched ConfigMap to the context of resolve().
use mathlib.Core.Path.{subst}
use resolution.Prelude.{
  ℕ, String, ◌≡◌, refl, sym, ap, ◌∙◌, false, Option, none, some, GoMap, find, Result, ok, err,
  arith,
}
use resolution.Api.{condition_false, ResolutionRequest}
use resolution.Api.Lifecycle.{get_condition, is_done}
use resolution.Cluster.{ApiServer}
use resolution.Common.{reason_resolution_failed}
use resolution.Common.Errors.{deadline_exceeded}
use resolution.Framework.{Choice, reconcile}
use resolution.Framework.Selection.{Possible, IsLate, reconcile-timed_out}
use resolution.Framework.Writes.{find_stored, fetched, Accepts}
use resolution.Knative.Manager.{Manager, succeeded}
use resolution.Prelude.Int.{ℤ}
use resolution.Common.Errors.{Error}
use resolution.Common.Context.{Ctx, value, request_namespace_key, get_resolver_config}
use resolution.Framework.{
  Reconciler, ConfigStore, timeout_duration, default_maximum_resolution_duration, request_ctx,
}
use resolution.Framework.Setup.Config.{request_ctx-reads}
use resolution.Git.{
  GitLibrary, git_resolver, get_resolution_timeout, config_field_timeout, or_default,
}

module _ {R W H F : Type 0} (g : GitLibrary R W H F) (parse : String → Result Error ℤ)
    (r : Reconciler) (store : ConfigStore) (loaded : GoMap) (ns : String) (ctx : Ctx)
    (fresh : value request_namespace_key ctx ≡ none) (stored : r.config_store ≡ some store)
    (has : store.loaded ≡ some loaded) where
  read_field :
      find config_field_timeout (get_resolver_config (request_ctx r ns ctx))
      ≡ find config_field_timeout loaded
  read_field = (request_ctx-reads r store loaded ns config_field_timeout ctx fresh stored has).1

  -- The git resolver's timeout is what the loaded configuration has under fetch-timeout, if that is
  -- there and parses as a duration; otherwise it is the framework's minute.
  pub timeout_duration-git :
      timeout_duration (git_resolver g parse) (request_ctx r ns ctx)
      ≡ elim (find config_field_timeout loaded) [
        | none ↦ default_maximum_resolution_duration
        | some s ↦ elim (parse s) [ ok d ↦ d | err e ↦ default_maximum_resolution_duration ]
      ]
  unfolding timeout_duration get_resolution_timeout
  timeout_duration-git =
      ap
        (λ o. elim o [
          | none ↦ default_maximum_resolution_duration
          | some s ↦ or_default default_maximum_resolution_duration (parse s)
        ])
        read_field
      ∙ ground arith

  -- A fetch that does not end within the duration that the loaded configuration has under fetch-timeout is
  -- given up, whichever case a possible select takes: the unfinished listed request of a controller that
  -- runs the git resolver is stored as failed with the reason ResolutionFailed and the context's message,
  -- and keeps its data, if it is not done by then and the server accepts the update. The context came
  -- without a namespace value.
  pub reconcile-fetch_timeout :
      {C : Type 0} (k : Manager) (a : ApiServer C) (split : String → Result Error (String × String))
      (choice : Choice) (key name : String) (rr latest : ResolutionRequest) (c : C)
      (finish : Option ℕ) (s : String) (d : ℤ)
      → r.resolver ≡ git_resolver g parse
      → find config_field_timeout loaded ≡ some s
      → parse s ≡ ok d
      → split key ≡ ok (ns, name)
      → r.lister ns name ≡ ok rr
      → is_done k rr ≡ false
      → IsLate finish d
      → Possible finish (timeout_duration r.resolver (request_ctx r ns ctx)) choice
      → fetched k a rr c ≡ ok latest
      → is_done k latest ≡ false
      → Accepts k a rr deadline_exceeded latest c
      → (new : ResolutionRequest) × (find_stored k a rr (reconcile k a split r choice ctx key c).1
          ≡ some new)
        × (get_condition k new.status
            ≡ some (succeeded condition_false reason_resolution_failed "context deadline exceeded"))
        × (new.status.fields ≡ latest.status.fields)
  reconcile-fetch_timeout k a split choice key name rr latest c finish s d runs has_field parses
        keyed listed unfinished late possible g' o ac =
      let limit : timeout_duration r.resolver (request_ctx r ns ctx) ≡ d =
        ap (λ x. timeout_duration x (request_ctx r ns ctx)) runs
        ∙ timeout_duration-git
        ∙ rw (has_field, parses) refl in
      reconcile-timed_out k a split r choice ctx key ns name rr c finish latest keyed listed
        unfinished (subst (λ x. IsLate finish x) (sym limit) late) possible g' o ac

-- ===== src/System/Protocol/Ended.antt =====
-- A request that has ended stays as it ended.
use mathlib.Core.Path.{subst}
use resolution.Prelude.{ℕ, ◌≡◌, refl, sym, ap, ◌∙◌, true, false, some, some_injective}
use resolution.Api.{Condition, ResolutionRequestStatus, ResolutionRequest}
use resolution.Cluster.{with_status}
use resolution.Api.Lifecycle.{get_condition, is_done}
use resolution.Knative.Manager.{or_unknown}
use resolution.System.Protocol.{
  Rules, World, core_copy, Write, fail, attach, complete, redo, Step, read, create, write, delete,
  pass, Steps, Steps-keep,
}
use resolution.System.Protocol.Faithful.{IsFaithful, Step-IsFaithful}
use resolution.Core.Outcomes.{reconcile_request-done}

module _ {C : Type 0} (rules : Rules C) (c : Condition) where
  -- The request has the condition `c`, for the generation that it has.
  pub record HasEnded (rr : ResolutionRequest) : Type 0 where
    pub condition : get_condition rules.manager rr.status ≡ some c
    pub observed : rr.status.duck.observed_generation ≡ rr.object_meta.generation

module _ {C : Type 0} (rules : Rules C) (c : Condition)
    (final : rules.manager.is_unknown (some c) ≡ false) where
  is_done_of :
      (rr : ResolutionRequest)
      → get_condition rules.manager rr.status ≡ some c
      → is_done rules.manager rr ≡ true
  unfolding is_done
  is_done_of rr h = rw h (rw final refl)

  -- The core controller's copy of such a request has its condition, too.
  copy-HasEnded :
      (s : ResolutionRequest) (now later : ℕ)
      → HasEnded rules c s
      → (get_condition rules.manager (core_copy rules now later s).status ≡ some c)
        × ((core_copy rules now later s).status.duck.observed_generation ≡ s.object_meta.generation)
  copy-HasEnded s now later h =
      let pre = rules.support.pre_process s in
      let same : get_condition rules.manager pre.status ≡ some c =
        rules.support.pre_process-current s h.observed
        ∙ ap (λ o. some (or_unknown o)) h.condition in
      let left =
        ap (λ r. r.1) (reconcile_request-done rules.manager now later pre (is_done_of pre same)) in
      (
        rules.support.post_process-condition _ s
            ∙ ap (λ r. get_condition rules.manager r.status) left
            ∙ same,
        rules.support.post_process-observed _ s
            ∙ ap (λ r. r.object_meta.generation) left
            ∙ ap (λ m. m.generation) (rules.support.pre_process-kept s).object_meta,
      )

  Write-HasEnded :
      (w : World) (old : ResolutionRequest) (s : ResolutionRequestStatus)
      → Write rules w.seen old s
      → rules.retries ≡ false
      → IsFaithful rules w
      → w.stored ≡ some old
      → HasEnded rules c old
      → (get_condition rules.manager s ≡ some c)
        × (s.duck.observed_generation ≡ old.object_meta.generation)
  Write-HasEnded w old _ (fail s reason message m e open_) r f at h =
      let same = f.current s old m at e in
      let done = ap (is_done rules.manager) same ∙ is_done_of old h.condition in cc
  Write-HasEnded w old _ (attach resource o) r f at h = (h.condition, h.observed)
  Write-HasEnded w old _ (complete s now later m e) r f at h =
      subst
        (λ x.
          (get_condition rules.manager (core_copy rules now later x).status ≡ some c)
          × ((core_copy rules now later x).status.duck.observed_generation
              ≡ old.object_meta.generation))
        (sym (f.current s old m at e)) (copy-HasEnded old now later h)
  Write-HasEnded w old _ (redo s now later again m) r f at h = cc

  record Ended (w : World) : Type 0 where
    rr : ResolutionRequest
    faithful : IsFaithful rules w
    stored : w.stored ≡ some rr
    ended : HasEnded rules c rr

  Step-holds :
      rules.retries ≡ false
      → rules.deletions ≡ false
      → (u v : World) → Step rules u v
      → Ended u
      → (rr : ResolutionRequest) × (v.stored ≡ some rr) × HasEnded rules c rr
  Step-holds r d _ _ (read w rr st) e = (e.rr, e.stored, e.ended)
  Step-holds r d _ _ (create w resolver req time generation v n st l h) e =
      let stored = e.stored in cc
  Step-holds r d _ _ (write w old s v n st wr l h) e =
      let ended = subst (HasEnded rules c) (some_injective (sym e.stored ∙ st)) e.ended in
      let (condition, observed) = Write-HasEnded w old s wr r e.faithful st ended in
      (with_status old s v, refl, record { condition = condition; observed = observed })
  Step-holds r d _ _ (delete w n yes_ l) e = cc
  Step-holds r d _ _ (pass w n l) e = (e.rr, e.stored, e.ended)

  Step-Ended :
      rules.retries ≡ false
      → rules.deletions ≡ false
      → (u v : World) → Step rules u v
      → Ended u
      → Ended v
  Step-Ended r d u v s e =
      let (rr, stored, ended) = Step-holds r d u v s e in
      record {
        rr = rr;
        faithful = Step-IsFaithful rules u v s e.faithful;
        stored = stored;
        ended = ended;
      }

  -- A stored request that is done for the generation that it has, where what was read of it is what
  -- is stored as long as the versions are the same, is stored with that condition, and for the
  -- generation that it has, after any steps of its clients, its resolvers' controllers and the core
  -- controller, whatever old copies these act on, if no update is retried and no request deleted.
  pub Steps-HasEnded :
      rules.retries ≡ false
      → rules.deletions ≡ false
      → (u w : World) (rr : ResolutionRequest) → Steps rules u w
      → IsFaithful rules u
      → u.stored ≡ some rr
      → HasEnded rules c rr
      → (new : ResolutionRequest) × (w.stored ≡ some new) × HasEnded rules c new
  Steps-HasEnded r d u w rr s f at h =
      let e =
        Steps-keep rules Ended (Step-Ended r d) u w s
          (record { rr = rr; faithful = f; stored = at; ended = h }) in
      (e.rr, e.stored, e.ended)

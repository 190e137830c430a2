-- ===== src/System/Protocol/Outcomes.antt =====
-- What every run of the components comes to.
use mathlib.Core.List.Memᴰ.{not-nil}
use mathlib.Core.List.{List, [], Memᴰ}
use mathlib.Core.Path.{subst}
use resolution.Prelude.{String, ◌≡◌, ◌≢◌, false, none, some, Result, ok}
use resolution.Common.Errors.{Error}
use resolution.Api.{Condition, ResolutionRequest}
use resolution.Base64.RoundTrip.{AllBytes}
use resolution.Framework.{ResolvedResource}
use resolution.Resource.{Request}
use resolution.Resource.Requester.{ReadOnly, get_data, submit}
use resolution.System.Protocol.{Rules, Steps}
use resolution.System.Protocol.Ended.{HasEnded, Steps-HasEnded}
use resolution.System.Protocol.Faithful.{IsFaithful, Steps-IsFaithful}
use resolution.System.Protocol.Offered.{submit-offered}
use resolution.System.Protocol.Refines.{view, Calls}
use resolution.System.Protocol.Refines.Runs.{Calls-Steps}

module _ {C : Type 0} (rules : Rules C) (ns name : String) where
  -- Nothing was read of the request yet.
  view-IsFaithful : (c : C) → IsFaithful rules (view rules ns name [] c)
  view-IsFaithful c = record {
    bounded = λ rr at. rules.server.stored-number ns name c rr at;
    remembered = λ s m. absurd (not-nil m);
    current = λ s rr m at e. absurd (not-nil m);
  }

  -- In runs in which no visit retries its update, as none does that meets no conflict, and in which no
  -- request is deleted: however a request came to be stored as done for the generation
  -- that it has, with the condition `c`, it is stored as that after every further sequence of calls of
  -- the client and the controllers, on whatever old copies these act.
  pub Calls-HasEnded :
      (c : Condition)
      → rules.manager.is_unknown (some c) ≡ false
      → rules.retries ≡ false
      → rules.deletions ≡ false
      → (s₀ s₁ s₂ : C) (seen seen' : List ResolutionRequest) (rr : ResolutionRequest)
      → Calls rules ns name [] s₀ seen s₁
      → rules.server.stored ns name s₁ ≡ some rr
      → HasEnded rules c rr
      → Calls rules ns name seen s₁ seen' s₂
      → (new : ResolutionRequest) × (rules.server.stored ns name s₂ ≡ some new)
        × HasEnded rules c new
  Calls-HasEnded c final r d s₀ s₁ s₂ seen seen' rr before at ended after =
      let (known, covers, s) = Calls-Steps rules ns name [] [] seen s₀ s₁ before (λ x m. m) in
      let (more, _, t) = Calls-Steps rules ns name known seen seen' s₁ s₂ after covers in
      Steps-HasEnded rules c final r d _ _ rr t (Steps-IsFaithful rules _ _ s (view-IsFaithful s₀))
        at ended

  -- After any calls of the client and the controllers, with updates retried or not, on a cluster that
  -- did not have the request: a client to whom a version of it that was ever read is listed, and whom
  -- Submit answers with a resource, reads the bytes of a resource that a resolver returned, if every
  -- resource that a resolver returns has some bytes, each below 256.
  pub calls-offered :
      ((resource : ResolvedResource) → rules.offered resource → resource.content ≢ [])
      → ((resource : ResolvedResource) → rules.offered resource → AllBytes resource.content)
      → (s₀ s₁ : C) (seen : List ResolutionRequest) (rr : ResolutionRequest) (ro : ReadOnly)
        (lister : String → String → Result Error ResolutionRequest) (resolver : String)
        (req : Request)
      → rules.server.stored ns name s₀ ≡ none
      → Calls rules ns name [] s₀ seen s₁
      → Memᴰ rr seen
      → lister req.namespace req.name ≡ ok rr
      → (submit rules.manager rules.server lister resolver req s₁).0 ≡ ok ro
      → (resource : ResolvedResource) × rules.offered resource × (get_data ro ≡ ok resource.content)
  calls-offered some_bytes bytes s₀ s₁ seen rr ro lister resolver req absent calls m l answered =
      let (known, covers, s) = Calls-Steps rules ns name [] [] seen s₀ s₁ calls (λ x n. n) in
      submit-offered rules some_bytes bytes (rules.server.revision s₀) _ rr ro
        (subst
          (λ o.
            Steps rules (record (view rules ns name [] s₀) { stored = o })
              (view rules ns name known s₁))
          absent s)
        (covers rr m) lister resolver req s₁ l answered

-- ===== src/System/Protocol/Refines/Runs.antt =====
-- Whole runs of the components.
use mathlib.Core.List.Memᴰ.{head, tail, cases_cons}
use mathlib.Core.List.{List, ◌∷◌}
use resolution.Prelude.{String, inl, inr}
use resolution.Api.{ResolutionRequest}
use resolution.System.Protocol.{Rules, read, Steps, next, stay, Steps-trans}
use resolution.System.Protocol.Refines.{
  view, Covers, Call, gets, submits, resolves, visits, Calls, finish, call,
}
use resolution.System.Protocol.Refines.Resolves.{Progress, reconcile-Progress, submit-Progress}
use resolution.System.Protocol.Refines.Visits.{visit-Steps}

module _ {C : Type 0} (rules : Rules C) (ns name : String) where
  -- A run of the protocol that has read all that the components have.
  abbrev Follows : List ResolutionRequest → C → List ResolutionRequest → C → Type 0
  Follows known c seen' c' =
      (more : List ResolutionRequest) × Covers rules ns name more seen'
      × Steps rules (view rules ns name known c) (view rules ns name more c')

  progressed :
      (known seen : List ResolutionRequest) (c c' : C)
      → Covers rules ns name known seen
      → Progress rules ns name known c c'
      → Follows known c seen c'
  progressed known seen c c' covers (more, grows, s) = (more, (λ x m. grows x (covers x m)), s)

  -- One more read, by both
  both_read :
      (known seen : List ResolutionRequest) (rr : ResolutionRequest)
      → Covers rules ns name known seen
      → Covers rules ns name (rr ∷ known) (rr ∷ seen)
  both_read known seen rr covers s m = elim (cases_cons m) [
    | inl e ↦ head e
    | inr n ↦ tail (covers s n)
  ]

  Call-Follows :
      (known seen seen' : List ResolutionRequest) (c c' : C)
      → Call rules ns name seen c seen' c'
      → Covers rules ns name known seen
      → Follows known c seen' c'
  Call-Follows known _ _ _ _ (gets seen c rr at) covers = (
    rr ∷ known,
    both_read known seen rr covers,
    next _ _ _ (read (view rules ns name known c) rr at) (stay (view rules ns name (rr ∷ known) c)),
  )
  Call-Follows known _ _ _ _ (submits seen c lister resolver req) covers =
      progressed known seen c _ covers (submit-Progress rules ns name known c lister resolver req)
  Call-Follows known _ _ _ _ (resolves seen c split r choice ctx key offers) covers =
      progressed known seen c _ covers
        (reconcile-Progress rules ns name known c split r choice ctx key offers)
  Call-Follows known _ _ _ _ (visits seen c split leader lister now later key knows keeps) covers =
      (
        known,
        covers,
        visit-Steps rules ns name known c split leader lister now later key
            (λ at_ns at_name rr l en em. covers rr (knows at_ns at_name rr l en em)) keeps,
      )

  -- Every sequence of calls of Submit, of the resolvers' Reconcile and of the core controller's, on any
  -- keys and with listers that list old copies of the request, whichever calls of the API server are
  -- refused, is for the request of one namespace and name a run of the protocol, in which all that the
  -- components have read was read. Where the rules have no retries, no visit of the calls retries its update.
  pub Calls-Steps :
      (known seen seen' : List ResolutionRequest) (c c' : C)
      → Calls rules ns name seen c seen' c'
      → Covers rules ns name known seen
      → (more : List ResolutionRequest) × Covers rules ns name more seen'
        × Steps rules (view rules ns name known c) (view rules ns name more c')
  Calls-Steps known _ _ _ _ (finish seen c) covers =
      (known, covers, stay (view rules ns name known c))
  Calls-Steps known _ _ _ _ (call seen seen' seen'' c c' c'' first rest) covers =
      let (more, covers', s) = Call-Follows known seen seen' c c' first covers in
      let (most, covers'', t) = Calls-Steps more seen' seen'' c' c'' rest covers' in
      (most, covers'', Steps-trans rules _ _ _ s t)

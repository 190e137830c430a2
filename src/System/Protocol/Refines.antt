-- ===== src/System/Protocol/Refines.antt =====
-- The code keeps the rules of the protocol: every sequence of calls of the controllers and of the client
-- is a run of it, whichever calls of the API server fail.
pub mod Server
pub mod Resolves
pub mod Visits
pub mod Runs
use mathlib.Core.List.{Memᴰ, List, ◌∷◌}
use resolution.Prelude.{ℕ, String, ◌≡◌, Result, ok, Bool, false, Option, some}
use resolution.Common.Errors.{Error}
use resolution.Common.Context.{Ctx}
use resolution.Api.{ResolutionRequest}
use resolution.Framework.{
  ResolvedResource, Choice, Reconciler, worker, on_resource_chan, request_ctx, reconcile,
}
use resolution.Resource.{Request}
use resolution.Resource.Requester.{submit}
use resolution.System.Protocol.{Rules, World, Steps, core_copy}
use resolution.Visit.{visit, attempt}

module _ {C : Type 0} (rules : Rules C) (ns name : String) where
  -- What a state of the cluster is of the request `ns`/`name`.
  abbrev pub view : List ResolutionRequest → C → World
  view seen c = record {
    stored = rules.server.stored ns name c;
    revision = rules.server.revision c;
    seen = seen;
  }

  abbrev pub Covers : List ResolutionRequest → List ResolutionRequest → Type 0
  Covers more seen = (s : ResolutionRequest) → Memᴰ s seen → Memᴰ s more

  -- What a lister lists of the request was read before.
  abbrev pub Knows :
      List ResolutionRequest → (String → String → Result Error ResolutionRequest) → Type 0
  Knows seen lister =
      (at_ns at_name : String) (rr : ResolutionRequest)
      → lister at_ns at_name ≡ ok rr
      → ns ≡ rr.object_meta.namespace
      → name ≡ rr.object_meta.name
      → Memᴰ rr seen

  -- The update of a listed request that a visit makes ends with its first attempt, as it does where that
  -- meets no conflict.
  abbrev pub Unretried : (String → String → Result Error ResolutionRequest) → ℕ → ℕ → C → Type 0
  Unretried lister now later c =
      (at_ns at_name : String) (original : ResolutionRequest)
      → lister at_ns at_name ≡ ok original
      → let tries =
          attempt rules.manager rules.server rules.support original
            (core_copy rules now later original) in
        rules.support.retry_update_conflicts tries c ≡ tries 0 c

  -- One call, on any objects of the cluster, with what was read of the request before and after.
  pub data Call : List ResolutionRequest → C → List ResolutionRequest → C → Type 0 where
    -- A lister or a client gets the request.
    gets :
        (seen : List ResolutionRequest) (c : C) (rr : ResolutionRequest)
        → rules.server.stored ns name c ≡ some rr
        → Call seen c (rr ∷ seen) c
    submits :
        (seen : List ResolutionRequest) (c : C)
        (lister : String → String → Result Error ResolutionRequest) (resolver : String)
        (req : Request)
        → Call seen c seen (submit rules.manager rules.server lister resolver req c).1
    resolves :
        (seen : List ResolutionRequest) (c : C) (split : String → Result Error (String × String))
        (r : Reconciler) (choice : Choice) (ctx : Ctx) (key : String)
        → ((at_ns : String) (rr : ResolutionRequest) (resource : ResolvedResource)
            → worker r.resolver (request_ctx r at_ns ctx) key rr ≡ on_resource_chan resource
            → rules.offered resource)
        → Call seen c seen (reconcile rules.manager rules.server split r choice ctx key c).1
    visits :
        (seen : List ResolutionRequest) (c : C) (split : String → Result Error (String × String))
        (is_leader_for : String → String → Bool)
        (lister : String → String → Result Error ResolutionRequest) (now later : ℕ) (key : String)
        → Knows seen lister
        → (rules.retries ≡ false → Unretried lister now later c)
        → Call seen c seen
            (visit rules.manager rules.server rules.support split is_leader_for lister now later key
              c).1

  pub data Calls : List ResolutionRequest → C → List ResolutionRequest → C → Type 0 where
    finish : (seen : List ResolutionRequest) (c : C) → Calls seen c seen c
    call :
        (seen seen' seen'' : List ResolutionRequest) (c c' c'' : C)
        → Call seen c seen' c'
        → Calls seen' c' seen'' c''
        → Calls seen c seen'' c''

  pub Calls-append :
      (seen seen' seen'' : List ResolutionRequest) (c c' c'' : C)
      → Calls seen c seen' c'
      → Calls seen' c' seen'' c''
      → Calls seen c seen'' c''
  Calls-append _ _ seen'' _ _ c'' (finish seen c) more = more
  Calls-append _ _ seen'' _ _ c'' (call seen a b c d e first rest) more =
      call seen a seen'' c d c'' first (Calls-append a b seen'' d e c'' rest more)

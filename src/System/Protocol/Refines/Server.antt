-- ===== src/System/Protocol/Refines/Server.antt =====
-- One call of the API server.
use mathlib.Core.Path.{subst}
use resolution.Prelude.{ℕ, String, ◌≡◌, sym, ap, ◌∙◌, none, some, Option, List, ◌<◌, ◌≤◌}
use resolution.Api.{ResolutionRequestStatus, ResolutionRequest}
use resolution.Cluster.{kept, wrote, with_status, born}
use resolution.Resource.{Request}
use resolution.Resource.Requester.{submitted}
use resolution.System.Protocol.{
  Rules, World, number, Write, Step, write, create, pass, Steps, one_step,
}
use resolution.System.Protocol.Refines.{view}

module _ {C : Type 0} (rules : Rules C) (ns name : String) (seen : List ResolutionRequest)
    (c c' : C) where
  arrive :
      (w : World) (o : Option ResolutionRequest)
      → rules.server.stored ns name c' ≡ o
      → Step rules w (record (view rules ns name seen c') { stored = o })
      → Steps rules w (view rules ns name seen c')
  arrive w o e s =
      subst (λ x. Steps rules w (record (view rules ns name seen c') { stored = x })) (sym e)
        (one_step rules _ _ s)

  -- A call that left the request alone.
  pub kept-Steps :
      rules.server.stored ns name c' ≡ rules.server.stored ns name c
      → rules.server.revision c ≤ rules.server.revision c'
      → Steps rules (view rules ns name seen c) (view rules ns name seen c')
  kept-Steps e l =
      arrive (view rules ns name seen c) _ e
        (pass (view rules ns name seen c) (rules.server.revision c') l)

  -- A call that wrote a status of the protocol.
  pub wrote-Steps :
      (old : ResolutionRequest) (s : ResolutionRequestStatus) (v : String)
      → rules.server.stored ns name c ≡ some old
      → Write rules seen old s
      → rules.server.stored ns name c' ≡ some (with_status old s v)
      → rules.server.revision c < number rules v
      → number rules v ≤ rules.server.revision c'
      → Steps rules (view rules ns name seen c) (view rules ns name seen c')
  wrote-Steps old s v at w e l h =
      arrive (view rules ns name seen c) _ e
        (write (view rules ns name seen c) old s v (rules.server.revision c') at w l h)

  -- A call that created the request.
  pub created-Steps :
      (resolver : String) (req : Request) (time generation : ℕ) (v : String)
      → rules.server.stored ns name c ≡ none
      → rules.server.stored ns name c'
        ≡ some (
            with_status
              (born (submitted resolver req) time generation)
              (submitted resolver req).status
              v)
      → rules.server.revision c < number rules v
      → number rules v ≤ rules.server.revision c'
      → Steps rules (view rules ns name seen c) (view rules ns name seen c')
  created-Steps resolver req time generation v at e l h = arrive (view rules ns name seen c) _ e (
      create (view rules ns name seen c) resolver req time generation v (rules.server.revision c')
        at l h)

module _ {C : Type 0} (rules : Rules C) (ns name : String) (seen : List ResolutionRequest)
    (c : C) where
  -- updateStatus, where what it is asked to write is a status of the protocol.
  pub update-Steps :
      (at_ns : String) (rr : ResolutionRequest)
      → ((old : ResolutionRequest)
          → ns ≡ at_ns
          → name ≡ rr.object_meta.name
          → rules.server.stored ns name c ≡ some old
          → old.object_meta.resource_version ≡ rr.object_meta.resource_version
          → Write rules seen old rr.status)
      → Steps rules
          (view rules ns name seen c)
          (view rules ns name seen (rules.server.update_status at_ns rr c).1)
  update-Steps at_ns rr asked = elim (rules.server.update_status-Change at_ns rr c ns name) [
    | kept e l ↦ kept-Steps rules ns name seen c _ e l
    | wrote new v (old, en, em, at, ver, f) e l h ↦
        wrote-Steps rules ns name seen c _ old rr.status v at (asked old en em at ver)
          (e ∙ ap (λ g. some (g v)) f) l h
  ]

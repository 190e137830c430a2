-- ===== src/System/Protocol.antt =====
-- One request under every order of what the client, the resolvers' controllers (pkg/resolver/framework)
-- and the core controller (pkg/reconciler/resolutionrequest) do to it, and of what else happens between
-- a read and the write that follows from it: a protocol, of which the controllers' code is shown to
-- keep the rules.
pub mod Faithful
pub mod Ended
pub mod Offered
pub mod Refines
pub mod Outcomes
pub mod Deadline
mod Tests
use mathlib.Core.List.{Memᴰ}
use resolution.Prelude.{ℕ, ◌≤◌, ◌<◌, String, ◌≡◌, Bool, true, false, Option, none, some, List, ◌∷◌}
use resolution.Api.{ResolutionRequestStatus, ResolutionRequest}
use resolution.Api.Lifecycle.{is_done, mark_failed}
use resolution.Cluster.{ApiServer, merge_status, with_status, born}
use resolution.Framework.{ResolvedResource}
use resolution.Framework.Writes.{patch_of}
use resolution.Knative.Manager.{Manager}
use resolution.Resource.{Request}
use resolution.Resource.Requester.{submitted}
use resolution.Visit.{Support, processed}

-- What the steps depend on: the libraries, the resources that the resolvers of the system return, and
-- whether, in the runs considered, updates are retried after a conflict, and requests deleted.
pub record Rules (C : Type 0) : Type 1 where
  pub manager : Manager
  pub server : ApiServer C
  pub support : Support manager C
  pub offered : ResolvedResource → Type 0
  pub retries : Bool
  pub deletions : Bool

-- The stored request, the revision of the store, and all that anyone has read of the request, be it by
-- a lister, however old, or by a call.
pub record World : Type 0 where
  pub stored : Option ResolutionRequest
  pub revision : ℕ
  pub seen : List ResolutionRequest

module _ {C : Type 0} (rules : Rules C) where
  abbrev pub number : String → ℕ
  number v = rules.server.number v

  -- The core controller's copy of a request, when it is done with it.
  abbrev pub core_copy : ℕ → ℕ → ResolutionRequest → ResolutionRequest
  core_copy now later s = processed rules.manager rules.server rules.support now later s

  -- The statuses that the components write onto the stored request.
  pub data Write (seen : List ResolutionRequest) (old : ResolutionRequest)
      : ResolutionRequestStatus → Type 0 where
    -- A resolver's controller fails a request that it has read, and that has not changed since.
    fail :
        (s : ResolutionRequest) (reason message : String)
        → Memᴰ s seen
        → s.object_meta.resource_version ≡ old.object_meta.resource_version
        → is_done rules.manager s ≡ false
        → Write seen old (mark_failed rules.manager reason message s.status)
    -- It patches a resource onto whatever is stored.
    attach :
        (resource : ResolvedResource)
        → rules.offered resource
        → Write seen old (merge_status (patch_of rules.manager rules.server resource) old.status)
    -- The core controller writes its copy of a request that has not changed since it was read.
    complete :
        (s : ResolutionRequest) (now later : ℕ)
        → Memᴰ s seen
        → s.object_meta.resource_version ≡ old.object_meta.resource_version
        → Write seen old (core_copy now later s).status
    -- After a conflict it writes the same copy onto a newer request.
    redo :
        (s : ResolutionRequest) (now later : ℕ)
        → rules.retries ≡ true
        → Memᴰ s seen
        → Write seen old (core_copy now later s).status

  pub data Step : World → World → Type 0 where
    read :
        (w : World) (rr : ResolutionRequest)
        → w.stored ≡ some rr
        → Step w (record w { seen = rr ∷ w.seen })
    create :
        (w : World) (resolver : String) (req : Request) (time generation : ℕ) (v : String) (n : ℕ)
        → w.stored ≡ none
        → w.revision < number v
        → number v ≤ n
        → Step w (record w {
          stored = some (
              with_status
                (born (submitted resolver req) time generation)
                (submitted resolver req).status
                v);
          revision = n;
        })
    write :
        (w : World) (old : ResolutionRequest) (s : ResolutionRequestStatus) (v : String) (n : ℕ)
        → w.stored ≡ some old
        → Write w.seen old s
        → w.revision < number v
        → number v ≤ n
        → Step w (record w { stored = some (with_status old s v); revision = n })
    delete :
        (w : World) (n : ℕ)
        → rules.deletions ≡ true
        → w.revision ≤ n
        → Step w (record w { stored = none; revision = n })
    -- Other objects are written.
    pass : (w : World) (n : ℕ) → w.revision ≤ n → Step w (record w { revision = n })

  pub data Steps : World → World → Type 0 where
    stay : (w : World) → Steps w w
    next : (u v w : World) → Step u v → Steps v w → Steps u w

  -- What every step keeps, any number of steps keep.
  pub Steps-keep :
      (P : World → Type 0)
      → ((u v : World) → Step u v → P u → P v)
      → (u w : World) → Steps u w
      → P u
      → P w
  Steps-keep P keep _ _ (stay w) p = p
  Steps-keep P keep _ _ (next u v w s rest) p = Steps-keep P keep v w rest (keep u v s p)

  pub Steps-trans : (u v w : World) → Steps u v → Steps v w → Steps u w
  Steps-trans _ _ w (stay v) more = more
  Steps-trans _ _ w (next u v x s rest) more = next u v w s (Steps-trans v x w rest more)

  pub one_step : (u v : World) → Step u v → Steps u v
  one_step u v s = next u v v s (stay v)

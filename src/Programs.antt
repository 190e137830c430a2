-- ===== src/Programs.antt =====
-- The main functions: cmd/controller, cmd/webhook, gitresolver/cmd/gitresolver,
-- bundleresolver/cmd/bundleresolver and docs/resolver-template/cmd/demoresolver. sharedmain.Main runs what
-- they give to it. The webhook is in Webhook.
pub mod Routes
pub mod Webhook
mod Tests
use resolution.Prelude.{ℕ, String, none, [], Result}
use resolution.Prelude.Int.{ℤ}
use resolution.Common.Context.{Ctx}
use resolution.Common.Errors.{Error}
use resolution.Api.{ResolutionRequest}
use resolution.Bundle.{Registry, bundle_resolver}
use resolution.Demo.{demo_resolver}
use resolution.Framework.Setup.{Startup, new_controller}
use resolution.Git.{GitLibrary, git_resolver}
use resolution.Generated.{Fatal}
use resolution.Generated.Starting.{CoreController, new_core_controller}
use resolution.Knative.Manager.{Manager}

-- `real` is the real clock, and `ctx` what sharedmain gives to a controller's constructor. None of the
-- resolvers' Initialize fails.
module _ {K : Type 0} (real : K) (lister : String → String → Result Error ResolutionRequest)
    (ctx : Ctx) where
  unfoldable pub git_program :
      {R W H F : Type 0} → GitLibrary R W H F → (String → Result Error ℤ) → Startup K
  unfolding new_controller
  git_program g parse = new_controller real lister [] [] ctx (git_resolver g parse) none

  unfoldable pub bundle_program :
      {Ref Keychain Image Layer Reader Tar : Type 0}
      → Registry Ref Keychain Image Layer Reader Tar
      → Startup K
  unfolding new_controller
  bundle_program g = new_controller real lister [] [] ctx (bundle_resolver g) none

  unfoldable pub demo_program : Startup K
  unfolding new_controller demo_resolver
  demo_program = new_controller real lister [] [] ctx demo_resolver none

-- cmd/controller: the real clock's readings are those of a visit.
unfoldable pub core_program :
    {C D : Type 0}
    → Manager
    → ℕ
    → ℕ
    → (String → String → Result Error ResolutionRequest)
    → Result Fatal (CoreController C D)
unfolding new_core_controller
core_program k now later lister = new_core_controller k now later lister

-- ===== src/Clients/Construction/Group.antt =====
-- clientset/versioned/typed/resolution/v1alpha1/resolution_client.go: the client of the API group.
use resolution.Prelude.{ℕ, Option, none, some, ◌==◌, if◌then◌else◌}
use resolution.Programs.Webhook.{scheme_group_version}
use resolution.Clients.Construction.{
  RestConfig, Store, Run, RestLibrary, ◌>>=◌, ◌>>◌, pure, or_error, or_die, load, copy_config,
  store,
}

pub record ResolutionV1alpha1Client (R : Type 0) : Type 0 where
  pub rest_client : R

-- RESTClient, of a client or nil
unfoldable pub rest_client_of : {R : Type 0} → Option (ResolutionV1alpha1Client R) → Option R
rest_client_of none = none
rest_client_of (some c) = some c.rest_client

unfoldable pub new : {R : Type 0} → R → ResolutionV1alpha1Client R
new c = record { rest_client = c }

module _ {Q S O H R D : Type 0} (lib : RestLibrary Q S O H R D) where
  -- What setConfigDefaults makes of a configuration
  unfoldable pub defaulted : RestConfig Q S O → RestConfig Q S O
  defaulted v = record v {
    group_version = some scheme_group_version;
    api_path = "/apis";
    negotiated_serializer = some lib.codecs;
    user_agent = if v.user_agent == "" then lib.default_user_agent else v.user_agent;
  }

  unfoldable pub set_config_defaults : ℕ → Store Q S O → Run (Store Q S O) (Unit {0})
  unfolding defaulted load store
  set_config_defaults config = do v ← load config; store config (defaulted v)

  unfoldable pub new_for_config_and_client :
      ℕ → H → Store Q S O → Run (Store Q S O) (ResolutionV1alpha1Client R)
  unfolding set_config_defaults load copy_config
  new_for_config_and_client c h = do
    config ← copy_config c
    set_config_defaults config
    client ← or_error (lib.rest_client_for (← load config) h)
    pure (record { rest_client = client })

  unfoldable pub new_for_config : ℕ → Store Q S O → Run (Store Q S O) (ResolutionV1alpha1Client R)
  unfolding set_config_defaults load copy_config new_for_config_and_client
  new_for_config c = do
    config ← copy_config c
    set_config_defaults config
    http_client ← or_error (lib.http_client_for (← load config))
    new_for_config_and_client config http_client

  unfoldable pub new_for_config_or_die :
      ℕ → Store Q S O → Run (Store Q S O) (ResolutionV1alpha1Client R)
  unfolding new_for_config
  new_for_config_or_die c = or_die (new_for_config c)

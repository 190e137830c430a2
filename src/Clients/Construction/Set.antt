-- ===== src/Clients/Construction/Set.antt =====
-- clientset/versioned/clientset.go: the clients of all groups, of which there is one, and of discovery.
use resolution.Prelude.{ℕ, Option, none, some, Bool, ◌&&◌, is_none, if◌then◌else◌}
use resolution.Prelude.Int.{pos, ltb_ℤ}
use resolution.Common.Errors.{Error, plain}
use resolution.Clients.Construction.{
  RestConfig, Store, Run, failed, RestLibrary, ◌>>=◌, ◌>>◌, pure, or_error, or_die, load,
  copy_config, store, new_token_bucket,
}
use resolution.Clients.Construction.Group.{ResolutionV1alpha1Client}
use resolution.Clients.Construction.Group

pub record Clientset (R D : Type 0) : Type 0 where
  pub discovery_client : D
  pub resolution_v1alpha1 : ResolutionV1alpha1Client R

-- Discovery, of a client set or nil
unfoldable pub discovery : {R D : Type 0} → Option (Clientset R D) → Option D
discovery none = none
discovery (some c) = some c.discovery_client

abbrev pub burst_required : Error
burst_required =
    plain
      "burst is required to be greater than 0 when RateLimiter is not set and QPS is set to greater than 0"

module _ {Q S O H R D : Type 0} (lib : RestLibrary Q S O H R D) where
  abbrev pub wants_limiter : RestConfig Q S O → Bool
  wants_limiter v = is_none v.rate_limiter && lib.positive v.qps

  -- The rate limiter of a copy that has none
  unfoldable pub set_rate_limiter : ℕ → Store Q S O → Run (Store Q S O) (Unit {0})
  unfolding load store new_token_bucket
  set_rate_limiter config = do
    v ← load config
    if wants_limiter v
        then if ltb_ℤ (pos 0) v.burst
          then (do
            l ← new_token_bucket v.qps v.burst
            store config (record v { rate_limiter = some l }))
          else failed burst_required
        else pure tt

  unfoldable pub new_for_config_and_client : ℕ → H → Store Q S O → Run (Store Q S O) (Clientset R D)
  unfolding set_rate_limiter load copy_config Group.new_for_config_and_client
  new_for_config_and_client c http_client = do
    config ← copy_config c
    set_rate_limiter config
    group ← Group.new_for_config_and_client lib config http_client
    discovery_client ← or_error (lib.discovery_client_for (← load config) http_client)
    pure (record { discovery_client = discovery_client; resolution_v1alpha1 = group })

  unfoldable pub new_for_config : ℕ → Store Q S O → Run (Store Q S O) (Clientset R D)
  unfolding new_for_config_and_client load copy_config
  new_for_config c = do
    config ← copy_config c
    http_client ← or_error (lib.http_client_for (← load config))
    new_for_config_and_client config http_client

  unfoldable pub new_for_config_or_die : ℕ → Store Q S O → Run (Store Q S O) (Clientset R D)
  unfolding new_for_config
  new_for_config_or_die c = or_die (new_for_config c)

  -- New
  unfoldable pub new_clientset : R → Clientset R D
  unfolding Group.new
  new_clientset c = record {
    discovery_client = lib.new_discovery_client c;
    resolution_v1alpha1 = Group.new c;
  }

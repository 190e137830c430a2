-- ===== src/Clients/Construction/Described.antt =====
-- What the two NewForConfig are to build, said of a configuration alone, with no memory.
use resolution.Prelude.{ℕ, ◌<◌, Option, none, some, ◌≡◌, if◌then◌else◌, Result, ok, err, ◌>>=◌}
use resolution.Prelude.Int.{pos, ltb_ℤ}
use resolution.Common.Errors.{Error}
use resolution.Clients.Construction.{
  RestConfig, Store, Run, returned, failed, panicked, nil_pointer, RestLibrary, final_store,
}
use resolution.Clients.Construction.Group.{ResolutionV1alpha1Client, defaulted}
use resolution.Clients.Construction.Set.{Clientset, wants_limiter, burst_required}

-- What a run answers, if it does not panic
abbrev pub answer : {T A : Type 0} → Run T A → Option (Result Error A)
answer (returned a t) = some (ok a)
answer (failed e t) = some (err e)
answer (panicked e t) = none
answer (nil_pointer t) = none

module _ {Q S O : Type 0} where
  -- A run with this answer that leaves the configurations as they were before
  abbrev pub Builds : {A : Type 0} → Store Q S O → Run (Store Q S O) A → Result Error A → Type 0
  Builds t r o =
      (answer r ≡ some o) × ((i : ℕ) → i < t.next → (final_store r).configs i ≡ t.configs i)

module _ {Q S O H R D : Type 0} (lib : RestLibrary Q S O H R D) where
  -- The configuration with a rate limiter at the address
  abbrev pub limited : RestConfig Q S O → ℕ → Result Error (RestConfig Q S O)
  limited v l =
      if wants_limiter lib v
      then if ltb_ℤ (pos 0) v.burst
        then ok (record v { rate_limiter = some l })
        else err burst_required
      else ok v

  -- The client of the group, of a configuration and an HTTP client
  abbrev pub group : RestConfig Q S O → H → Result Error (ResolutionV1alpha1Client R)
  group v h = lib.rest_client_for (defaulted lib v) h >>= λ r. ok (record { rest_client = r })

  -- Both clients, of one configuration and one HTTP client: the one of discovery gets no defaults.
  abbrev pub both : RestConfig Q S O → H → Result Error (Clientset R D)
  both w h = group w h >>= λ g. lib.discovery_client_for w h >>= λ d.
      ok (record { discovery_client = d; resolution_v1alpha1 = g })

  abbrev pub with_client : RestConfig Q S O → ℕ → H → Result Error (Clientset R D)
  with_client v l h = limited v l >>= λ w. both w h

  -- The HTTP client is made of the configuration without the defaults.
  abbrev pub clients : RestConfig Q S O → ℕ → Result Error (Clientset R D)
  clients v l = lib.http_client_for v >>= λ h. with_client v l h

  -- Here it is made of the configuration with them.
  abbrev pub group_alone : RestConfig Q S O → Result Error (ResolutionV1alpha1Client R)
  group_alone v = lib.http_client_for (defaulted lib v) >>= λ h. group v h

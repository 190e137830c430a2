-- ===== src/Clients/Construction/Steps.antt =====
-- What each step of the construction does to the configurations in memory.
use resolution.Prelude.{
  ℕ, suc, ◌<◌, Option, some, true, false, ◌≡◌, refl, ◌⊎◌, inl, inr, Bool-cases, ◌=?◌, if◌then◌else◌,
  Result, ok, err, arith,
}
use resolution.Prelude.Int.{pos, ltb_ℤ}
use resolution.Common.Errors.{Error}
use resolution.Clients.Construction.{
  RestConfig, Store, Run, returned, failed, RestLibrary, added, ◌>>=◌, or_error, pure, load,
  copy_config, store, new_token_bucket,
}
use resolution.Clients.Construction.Group.{ResolutionV1alpha1Client, defaulted, set_config_defaults}
use resolution.Clients.Construction.Group
use resolution.Clients.Construction.Set.{wants_limiter, burst_required, set_rate_limiter}
use resolution.Clients.Construction.Described.{limited}

pub self : (n : ℕ) → (n =? n) ≡ true
self n = ground arith

pub other : (i n : ℕ) → i < n → (i =? n) ≡ false
other i n h = ground arith

-- A read where the last write was
pub held :
    {A : Type 0} (n : ℕ) (new : A) (old : ℕ → Option A)
    → (if n =? n then some new else old n) ≡ some new
held n new old = rw (self n) refl

module _ {Q S O : Type 0} (t : Store Q S O) (c : ℕ) (v : RestConfig Q S O)
    (e : t.configs c ≡ some v) where
  pub load_at : load c t ≡ returned v t
  unfolding load
  load_at = rw (load, e) refl

  pub copy_at : copy_config c t ≡ returned t.next (added v t)
  unfolding copy_config
  copy_at = rw (copy_config, e) refl

module _ {Q S O : Type 0} where
  pub kept :
      (t t' : Store Q S O) (w : RestConfig Q S O)
      → t'.next ≡ suc t.next
      → ((i : ℕ) → (i =? t.next) ≡ false → t'.configs i ≡ (added w t).configs i)
      → (i : ℕ) → i < t.next
      → t'.configs i ≡ t.configs i
  kept t t' w n k i h = rw (k i (other i t.next h), other i t.next h) refl

  pub added_kept :
      (t : Store Q S O) (w : RestConfig Q S O) (i : ℕ)
      → i < t.next
      → (added w t).configs i ≡ t.configs i
  added_kept t w i h = rw (other i t.next h) refl

module _ {Q S O H R D : Type 0} (lib : RestLibrary Q S O H R D) where
  pub defaults_at :
      (t : Store Q S O) (c : ℕ) (v : RestConfig Q S O)
      → t.configs c ≡ some v
      → set_config_defaults lib c t
        ≡ returned tt
            (record t { configs = λ i. if i =? c then some (defaulted lib v) else t.configs i })
  unfolding set_config_defaults store
  defaults_at t c v e = rw (set_config_defaults, ◌>>=◌, load_at t c v e) refl

  -- A copy of a configuration with its defaults
  abbrev pub used : RestConfig Q S O → Store Q S O → Store Q S O
  used v t = record (added v t) {
    configs = λ i. if i =? t.next then some (defaulted lib v) else (added v t).configs i;
  }

  abbrev pub group_answer :
      Result Error R → Store Q S O → Run (Store Q S O) (ResolutionV1alpha1Client R)
  group_answer o = or_error o >>= λ client. pure (record { rest_client = client })

  pub group_run :
      (t : Store Q S O) (c : ℕ) (v : RestConfig Q S O) (h : H)
      → t.configs c ≡ some v
      → Group.new_for_config_and_client lib c h t
        ≡ group_answer (lib.rest_client_for (defaulted lib v) h) (used v t)
  unfolding Group.new_for_config_and_client
  group_run t c v h e =
      rw
        (
          Group.new_for_config_and_client,
          ◌>>=◌,
          copy_at t c v e,
          defaults_at (added v t) t.next v (held t.next v t.configs),
          load_at (used v t) t.next (defaulted lib v)
              (held t.next (defaulted lib v) (added v t).configs),
        )
        refl

  -- How the rate limiter of a copy is set, or why not
  abbrev pub Limits : Store Q S O → ℕ → RestConfig Q S O → Run (Store Q S O) (Unit {0}) → Type 0
  Limits t c v r =
      ((w : RestConfig Q S O) × (t' : Store Q S O) × (limited lib v t.next_limiter ≡ ok w)
        × (r ≡ returned tt t')
        × (t'.configs c ≡ some w)
        × (t'.next ≡ t.next)
        × ((i : ℕ) → (i =? c) ≡ false → t'.configs i ≡ t.configs i))
      ⊎ ((limited lib v t.next_limiter ≡ err burst_required) × (r ≡ failed burst_required t))

  -- A new limiter, and the copy with its address
  abbrev pub with_limiter : ℕ → RestConfig Q S O → Store Q S O → Store Q S O
  with_limiter c v t = record t {
    next_limiter = suc t.next_limiter;
    limiters = λ l. if l =? t.next_limiter then some (v.qps, v.burst) else t.limiters l;
    configs =
        λ i. if i =? c then some (record v { rate_limiter = some t.next_limiter }) else t.configs i;
  }

  pub set_rate_limiter-Limits :
      (t : Store Q S O) (c : ℕ) (v : RestConfig Q S O)
      → t.configs c ≡ some v
      → Limits t c v (set_rate_limiter lib c t)
  unfolding store new_token_bucket set_rate_limiter
  set_rate_limiter-Limits t c v e = elim (Bool-cases (wants_limiter lib v)) [
    | inl hw ↦ elim (Bool-cases (ltb_ℤ (pos 0) v.burst)) [
      | inl hb ↦ inl (
        record v { rate_limiter = some t.next_limiter },
        with_limiter c v t,
        rw (hw, hb) refl,
        rw (set_rate_limiter, ◌>>=◌, load_at t c v e, hw, hb) refl,
        held c (record v { rate_limiter = some t.next_limiter }) t.configs,
        refl,
        λ i n. rw n refl,
      )
      | inr hb ↦ inr (rw (hw, hb) refl, rw (set_rate_limiter, ◌>>=◌, load_at t c v e, hw, hb) refl)
    ]
    | inr hw ↦ inl (
      v,
      t,
      rw hw refl,
      rw (set_rate_limiter, ◌>>=◌, load_at t c v e, hw) refl,
      e,
      refl,
      λ i n. refl,
    )
  ]

  pub used_kept :
      (t : Store Q S O) (w : RestConfig Q S O) (i : ℕ)
      → i < t.next
      → (used w t).configs i ≡ t.configs i
  used_kept t w i h = rw (other i t.next h) refl

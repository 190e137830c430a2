-- ===== src/Clients/Construction.antt =====
-- How pkg/client/clientset makes its clients from a rest.Config: clientset.go in Set, resolution_client.go
-- in Group. Here are the configurations in memory, which the code copies and changes through pointers,
-- and client-go's packages rest, discovery and flowcontrol as an interface.
pub mod Group
pub mod Set
pub mod Described
mod Steps
pub mod Sharing
mod Tests
use resolution.Prelude.{
  ℕ, suc, String, Bool, Option, none, some, Result, ok, err, ◌=?◌, if◌then◌else◌,
}
use resolution.Prelude.Int.{ℤ}
use resolution.Common.Errors.{Error}
use resolution.Programs.Webhook.{GroupVersion}

-- rest.Config. `Q` is float32, `S` the type of a serializer, and `O` has the fields that are not named. A
-- rate limiter is an address.
pub record RestConfig (Q S O : Type 0) : Type 0 where
  pub qps : Q
  pub burst : ℤ
  pub rate_limiter : Option ℕ
  pub group_version : Option GroupVersion
  pub api_path : String
  pub negotiated_serializer : Option S
  pub user_agent : String
  pub others : O

-- The configurations and the rate limiters by their addresses, of which the next ones are free. A limiter
-- is known by the rate and the burst that it was made for.
pub record Store (Q S O : Type 0) : Type 0 where
  pub next : ℕ
  pub configs : ℕ → Option (RestConfig Q S O)
  pub next_limiter : ℕ
  pub limiters : ℕ → Option (Q × ℤ)

-- What a function does that returns a value or an error: `nil_pointer` is the panic of reading through a
-- pointer at no configuration.
pub data Run (T A : Type 0) : Type 0 where
  returned : A → T → Run T A
  failed panicked : Error → T → Run T A
  nil_pointer : T → Run T A

module _ {T A B : Type 0} where
  abbrev pub and_then : Run T A → (A → T → Run T B) → Run T B
  and_then (returned a t) k = k a t
  and_then (failed e t) k = failed e t
  and_then (panicked e t) k = panicked e t
  and_then (nil_pointer t) k = nil_pointer t

  infixl 5 ◌>>=◌ ◌>>◌
  abbrev pub ◌>>=◌ : (T → Run T A) → (A → T → Run T B) → T → Run T B
  m >>= k = λ t. and_then (m t) k

  abbrev pub ◌>>◌ : (T → Run T A) → (T → Run T B) → T → Run T B
  m >> n = λ t. and_then (m t) (λ _. n)

module _ {T A : Type 0} where
  abbrev pub pure : A → T → Run T A
  pure = returned

  -- `if err != nil { return nil, err }` of a call that changes no configuration
  abbrev pub or_error : Result Error A → T → Run T A
  or_error (ok a) t = returned a t
  or_error (err e) t = failed e t

  -- `if err != nil { panic(err) }`
  abbrev pub or_panic : Run T A → Run T A
  or_panic (returned a t) = returned a t
  or_panic (failed e t) = panicked e t
  or_panic (panicked e t) = panicked e t
  or_panic (nil_pointer t) = nil_pointer t

  abbrev pub or_die : (T → Run T A) → T → Run T A
  or_die m = λ t. or_panic (m t)

  abbrev pub final_store : Run T A → T
  final_store (returned a t) = t
  final_store (failed e t) = t
  final_store (panicked e t) = t
  final_store (nil_pointer t) = t

-- What the code calls of client-go. These read the configuration at their pointer, and change none.
pub record RestLibrary (Q S O H R D : Type 0) : Type 0 where
  pub positive : Q → Bool
  pub codecs : S
  pub default_user_agent : String
  pub http_client_for : RestConfig Q S O → Result Error H
  pub rest_client_for : RestConfig Q S O → H → Result Error R
  pub discovery_client_for : RestConfig Q S O → H → Result Error D
  pub new_discovery_client : R → D

module _ {Q S O : Type 0} where
  abbrev pub added : RestConfig Q S O → Store Q S O → Store Q S O
  added v t = record t {
    next = suc t.next;
    configs = λ i. if i =? t.next then some v else t.configs i;
  }

  -- `*c`
  unfoldable pub load : ℕ → Store Q S O → Run (Store Q S O) (RestConfig Q S O)
  load c t = elim (t.configs c) [ none ↦ nil_pointer t | some v ↦ returned v t ]

  -- `config := *c`, with the address of the copy
  unfoldable pub copy_config : ℕ → Store Q S O → Run (Store Q S O) ℕ
  copy_config c t = elim (t.configs c) [
    | none ↦ nil_pointer t
    | some v ↦ returned t.next (added v t)
  ]

  unfoldable pub store : ℕ → RestConfig Q S O → Store Q S O → Run (Store Q S O) (Unit {0})
  store c v t = returned tt (record t { configs = λ i. if i =? c then some v else t.configs i })

  -- flowcontrol.NewTokenBucketRateLimiter
  unfoldable pub new_token_bucket : Q → ℤ → Store Q S O → Run (Store Q S O) ℕ
  new_token_bucket q burst t = returned t.next_limiter (record t {
    next_limiter = suc t.next_limiter;
    limiters = λ l. if l =? t.next_limiter then some (q, burst) else t.limiters l;
  })

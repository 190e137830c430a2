-- ===== src/Informers/Shared.antt =====
-- The informer of a type is shared.
use resolution.Prelude.{
  String, ◌≡◌, refl, sym, ap, ◌∙◌, Bool, true, false, ◌⊎◌, inl, inr, Bool-cases, Option, none, some,
  List, [], ◌∷◌, ◌==◌, eq_iff, eq_refl, if◌then◌else◌, lookup, lookup-insert, arith,
}
use resolution.Prelude.Int.{ℤ}
use resolution.Informers.{
  Factory, is_started, start, informer_for, found_or_made, made, started_only, synced_each,
  wait_for_cache_sync,
}
use resolution.Informers.Once.{Operation, starts, asks, operate, operate_all}

abbrev synced_of : {I : Type 0} → (I → Bool) → Option I → Option Bool
synced_of has_synced none = none
synced_of has_synced (some i) = some (has_synced i)

module _ {K O I : Type 0} where
  found_or_made-informer :
      (k t : String) (new_func : K → ℤ → I) (f : Factory K O I) (o : Option I) (i : I)
      → lookup k f.informers ≡ o
      → lookup t f.informers ≡ some i
      → lookup t (found_or_made k new_func f o).1.informers ≡ some i
  found_or_made-informer k t new_func f (some j) i e h = h
  found_or_made-informer k t new_func f none i e h =
      lookup-insert k t (made k new_func f) f.informers ∙ other_key (Bool-cases (k == t))
    where
      other_key :
          ((k == t) ≡ true) ⊎ ((k == t) ≡ false)
          → (if k == t then some (made k new_func f) else lookup t f.informers) ≡ some i
      other_key (inr n) = rw n h
      other_key (inl y) =
          let clash : ◌≡◌ {A = Option I} none (some i) =
            sym e ∙ ap (λ x. lookup x f.informers) ((eq_iff k t).0 y) ∙ h in
          cc

  -- An informer stays that of its type.
  operate-informer :
      (op : Operation K I) (f : Factory K O I) (t : String) (i : I)
      → lookup t f.informers ≡ some i
      → lookup t (operate op f).informers ≡ some i
  unfolding start informer_for
  operate-informer starts f t i h = h
  operate-informer (asks k new_func) f t i h =
      found_or_made-informer k t new_func f (lookup k f.informers) i refl h

  operate_all-informer :
      (ops : List (Operation K I)) (f : Factory K O I) (t : String) (i : I)
      → lookup t f.informers ≡ some i
      → lookup t (operate_all ops f).informers ≡ some i
  operate_all-informer [] f t i h = h
  operate_all-informer (op ∷ ops) f t i h =
      operate_all-informer ops (operate op f) t i (operate-informer op f t i h)

  asked_or_made :
      (t : String) (new_func : K → ℤ → I) (f : Factory K O I) (o : Option I)
      → lookup t f.informers ≡ o
      → lookup t (found_or_made t new_func f o).1.informers ≡ some (found_or_made t new_func f o).0
  asked_or_made t new_func f (some j) e = e
  asked_or_made t new_func f none e =
      lookup-insert t t (made t new_func f) f.informers ∙ rw (eq_refl t) refl

  asked-informer :
      (t : String) (new_func : K → ℤ → I) (f : Factory K O I)
      → lookup t (informer_for t new_func f).1.informers ≡ some (informer_for t new_func f).0
  unfolding informer_for
  asked-informer t new_func f = asked_or_made t new_func f (lookup t f.informers) refl

  known-informer :
      (t : String) (new_func : K → ℤ → I) (f : Factory K O I) (i : I)
      → lookup t f.informers ≡ some i
      → (informer_for t new_func f).0 ≡ i
  unfolding informer_for
  known-informer t new_func f i h = ap (λ o. (found_or_made t new_func f o).0) h

  -- All that ask a factory for the informer of a type get the same one, whichever way they have to
  -- make one, and whatever is asked of the factory in between.
  informer_for-shared :
      (t : String) (first second : K → ℤ → I) (f : Factory K O I) (ops : List (Operation K I))
      → (informer_for t second (operate_all ops (informer_for t first f).1)).0
        ≡ (informer_for t first f).0
  informer_for-shared t first second f ops =
      known-informer t second (operate_all ops (informer_for t first f).1)
        (informer_for t first f).0
        (operate_all-informer ops (informer_for t first f).1 t _ (asked-informer t first f))

module _ {I : Type 0} where
  lookup-synced :
      (has_synced : I → Bool) (started : List (String × Bool)) (informers : List (String × I))
      (t : String)
      → lookup t (synced_each has_synced (started_only started informers))
        ≡ (if is_started t started then synced_of has_synced (lookup t informers) else none)
  unfolding started_only
  lookup-synced has_synced started [] t = ground arith
  lookup-synced has_synced started ((k, i) ∷ informers) t =
      ground (arith, lookup-synced has_synced started informers t, eq_iff k t)

module _ {K O I : Type 0} where
  -- WaitForCacheSync answers for the types whose informers were started, and for no other.
  lookup-wait_for_cache_sync :
      (has_synced : I → Bool) (f : Factory K O I) (t : String)
      → lookup t (wait_for_cache_sync has_synced f) ≡ (
          if is_started t f.started_informers
          then synced_of has_synced (lookup t f.informers)
          else none)
  unfolding wait_for_cache_sync
  lookup-wait_for_cache_sync has_synced f t =
      lookup-synced has_synced f.started_informers f.informers t

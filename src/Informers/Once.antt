-- ===== src/Informers/Once.antt =====
-- An informer is run once, however often Start is called.
use resolution.Prelude.{
  ℕ, suc, ◌≤◌, String, ◌≡◌, refl, ◌∙◌, Bool, true, false, inl, inr, Bool-cases, Option, none, some,
  List, [], ◌∷◌, ◌==◌, eq_iff, eq_refl, if◌then◌else◌, lookup, insert, lookup-insert, arith,
}
use mathlib.Core.Path.{subst}
use resolution.Prelude.Int.{ℤ}
use resolution.Informers.{
  Factory, is_started, start_each, start, found_or_made, informer_for, new_filtered_factory,
  new_factory_with_options, with_namespace, with_tweak_list_options,
}

-- What is asked of a factory
pub data Operation (K I : Type 0) : Type 0 where
  starts : Operation K I
  asks : String → (K → ℤ → I) → Operation K I

module _ {K O I : Type 0} where
  abbrev pub operate : Operation K I → Factory K O I → Factory K O I
  operate starts f = start f
  operate (asks t new_func) f = (informer_for t new_func f).1

  abbrev pub operate_all : List (Operation K I) → Factory K O I → Factory K O I
  operate_all [] f = f
  operate_all (op ∷ ops) f = operate_all ops (operate op f)

is_started-insert :
    (t k : String) (started : List (String × Bool))
    → is_started t (insert k true started) ≡ (if k == t then true else is_started t started)
is_started-insert t k started = ground (arith, lookup-insert k t true started)

module _ {I : Type 0} where
  -- How many goroutines run an informer of a type.
  abbrev pub count : String → List (String × I) → ℕ
  count t [] = 0
  count t ((k, i) ∷ running) = let n = count t running in if k == t then suc n else n

  -- One for a type that was started, and none for another
  abbrev IsBalanced : List (String × Bool) × List (String × I) → Type 0
  IsBalanced (started, running) =
      (t : String) → count t running ≡ (if is_started t started then 1 else 0)

  -- One step of the loop
  abbrev start_one :
      String × I
      → List (String × Bool) × List (String × I)
      → List (String × Bool) × List (String × I)
  start_one (k, i) (started, running) =
      if is_started k started then (started, running) else (insert k true started, (k, i) ∷ running)

  start_one-IsBalanced :
      (k : String) (i : I) (started : List (String × Bool)) (running : List (String × I))
      → IsBalanced (started, running)
      → IsBalanced (start_one (k, i) (started, running))
  start_one-IsBalanced k i started running b = elim (Bool-cases (is_started k started)) [
    | inl yes_ ↦ rw yes_ b
    | inr no_ ↦ rw no_ (λ t. ground (arith, b t, is_started-insert t k started, eq_iff k t))
  ]

  start_each-IsBalanced :
      (informers : List (String × I)) (s : List (String × Bool) × List (String × I))
      → IsBalanced s
      → IsBalanced (start_each informers s)
  unfolding start_each
  start_each-IsBalanced [] (started, running) b = b
  start_each-IsBalanced ((k, i) ∷ informers) (started, running) b =
      start_each-IsBalanced informers (start_one (k, i) (started, running))
        (start_one-IsBalanced k i started running b)

  start_one-started :
      (k t : String) (i : I) (started : List (String × Bool)) (running : List (String × I))
      → is_started t started ≡ true
      → is_started t (start_one (k, i) (started, running)).0 ≡ true
  start_one-started k t i started running h = ground (arith, is_started-insert t k started)

  start_each-started :
      (t : String) (informers : List (String × I)) (s : List (String × Bool) × List (String × I))
      → is_started t s.0 ≡ true
      → is_started t (start_each informers s).0 ≡ true
  unfolding start_each
  start_each-started t [] (started, running) h = h
  start_each-started t ((k, i) ∷ informers) (started, running) h =
      start_each-started t informers (start_one (k, i) (started, running))
        (start_one-started k t i started running h)

  start_one-itself :
      (k : String) (i : I) (started : List (String × Bool)) (running : List (String × I))
      → is_started k (start_one (k, i) (started, running)).0 ≡ true
  start_one-itself k i started running = elim (Bool-cases (is_started k started)) [
    | inl yes_ ↦ rw yes_ yes_
    | inr no_ ↦ rw no_ (is_started-insert k k started ∙ rw (eq_refl k) refl)
  ]

  -- The loop starts every informer of the list.
  start_each-all :
      (t : String) (informers : List (String × I)) (s : List (String × Bool) × List (String × I))
      (i : I)
      → lookup t informers ≡ some i
      → is_started t (start_each informers s).0 ≡ true
  unfolding start_each
  start_each-all t [] s i h = cc
  start_each-all t ((k, j) ∷ informers) (started, running) i h = elim (Bool-cases (k == t)) [
    | inl e ↦ start_each-started t informers (start_one (k, j) (started, running)) (
        subst (λ x. is_started x (start_one (k, j) (started, running)).0 ≡ true) ((eq_iff k t).0 e)
          (start_one-itself k j started running))
    | inr n ↦ start_each-all t informers (start_one (k, j) (started, running)) i (ground arith)
  ]

module _ {K O I : Type 0} where
  abbrev IsBalancedFactory : Factory K O I → Type 0
  IsBalancedFactory f = IsBalanced (f.started_informers, f.running)

  found_or_made-IsBalanced :
      (t : String) (new_func : K → ℤ → I) (f : Factory K O I) (o : Option I)
      → IsBalancedFactory f
      → IsBalancedFactory (found_or_made t new_func f o).1
  found_or_made-IsBalanced t new_func f none b = b
  found_or_made-IsBalanced t new_func f (some i) b = b

  operate-IsBalanced :
      (op : Operation K I) (f : Factory K O I)
      → IsBalancedFactory f
      → IsBalancedFactory (operate op f)
  unfolding start informer_for
  operate-IsBalanced starts f b = start_each-IsBalanced f.informers _ b
  operate-IsBalanced (asks t new_func) f b =
      found_or_made-IsBalanced t new_func f (lookup t f.informers) b

  operate_all-IsBalanced :
      (ops : List (Operation K I)) (f : Factory K O I)
      → IsBalancedFactory f
      → IsBalancedFactory (operate_all ops f)
  operate_all-IsBalanced [] f b = b
  operate_all-IsBalanced (op ∷ ops) f b =
      operate_all-IsBalanced ops (operate op f) (operate-IsBalanced op f b)

  -- At most one goroutine runs an informer of a type; after Start exactly one does, if there is one.
  balanced-once :
      (f : Factory K O I) (t : String) (i : I)
      → IsBalancedFactory f
      → lookup t f.informers ≡ some i
      → (count t f.running ≤ 1) × (count t (start f).running ≡ 1)
  unfolding start
  balanced-once f t i b asked =
      let after = start_each-IsBalanced f.informers (f.started_informers, f.running) b t in
      let all = start_each-all t f.informers (f.started_informers, f.running) i asked in
      (at_most (is_started t f.started_informers) (b t), after ∙ rw all refl)
    where
      at_most : (b : Bool) → count t f.running ≡ (if b then 1 else 0) → count t f.running ≤ 1
      at_most true e = omega arith
      at_most false e = omega arith

module _ {K O : Type 0} (I : Type 0) (client : K) (resync : ℤ) (namespace : String)
    (tweak : Option (O → O)) where
  abbrev pub new : Factory K O I
  new = new_filtered_factory client resync namespace tweak

  new-IsBalanced : IsBalancedFactory new
  unfolding new_filtered_factory new_factory_with_options with_namespace with_tweak_list_options
  new-IsBalanced t = refl

  -- Whatever was asked of a new factory before: at most one goroutine runs an informer of a type, and
  -- after Start, had it been called before or not, exactly one does for a type whose informer was
  -- asked for.
  pub running-once :
      (ops : List (Operation K I)) (t : String) (i : I)
      → lookup t (operate_all ops new).informers ≡ some i
      → (count t (operate_all ops new).running ≤ 1)
        × (count t (start (operate_all ops new)).running ≡ 1)
  running-once ops t i asked =
      balanced-once (operate_all ops new) t i (operate_all-IsBalanced ops new new-IsBalanced) asked

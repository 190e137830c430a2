-- ===== src/Injection/Serving.antt =====
-- Factories and informers for a selector, in a context and in the store of factories.
use resolution.Prelude.{
  ℕ, ◌<◌, String, ◌≡◌, refl, sym, ap, ◌∙◌, ◌⊎◌, inl, inr, true, Bool-cases, Option-cases,
  some_injective, Option, none, some, List, [], ◌∷◌, ◌==◌, ◌=?◌, =?_iff, lookup, lookup-insert,
  arith,
}
use resolution.Prelude.Int.{ℤ}
use resolution.Informers.{
  Factory, ListWatch, request_type, informer_for, found_or_made, made, new_factory_with_options,
  with_tweak_list_options, with_namespace,
}
use resolution.Informers.Requests.{request_informer, new_filtered_request_informer}
use resolution.Injection.{
  filtered_factory_key, filtered_informer_key, factory, of_factory, Ctx, value, Scope, Factories,
  put, allocate, scope_options,
}
use resolution.Injection.Filtered.{filtered_factory, filtered_options}

abbrev or_all : Option String → String
or_all none = ""
or_all (some ns) = ns

module _ {K O I : Type 0} (nsi : ListWatch K O → String → ℤ → List String → I)
    (select : String → O → O) (sc : Scope) (c : K) where
  -- An informer of the requests in the scope that a selector selects
  abbrev pub selected : String → I
  selected s =
      nsi
        (record {
          list_func = λ options. record {
            client = c;
            namespace = or_all sc.namespace_scope;
            options = select s options;
          };
          watch_func = λ options. record {
            client = c;
            namespace = or_all sc.namespace_scope;
            options = select s options;
          };
        })
        request_type sc.resync_period ("namespace" ∷ [])

  -- A factory for a selector, which may have made its informer
  pub record Serves (s : String) (f : Factory K O I) : Type 0 where
    client_is : f.client ≡ c
    namespace_is : f.namespace ≡ or_all sc.namespace_scope
    tweak_is : f.tweak_list_options ≡ some (select s)
    resync_is : f.default_resync ≡ sc.resync_period
    custom_is : f.custom_resync ≡ []
    informer_is :
        (lookup request_type f.informers ≡ none)
        ⊎ (lookup request_type f.informers ≡ some (selected s))

  filtered_factory-Serves : (s : String) → Serves s (filtered_factory select sc c s)
  unfolding filtered_factory filtered_options new_factory_with_options with_tweak_list_options
      with_namespace scope_options
  filtered_factory-Serves s = elim (Option-cases sc.namespace_scope) [
    | inl e ↦ record {
      client_is = rw e refl;
      namespace_is = rw e refl;
      tweak_is = rw e refl;
      resync_is = rw e refl;
      custom_is = rw e refl;
      informer_is = inl (rw e refl);
    }
    | inr (ns, e) ↦ record {
      client_is = rw e refl;
      namespace_is = rw e refl;
      tweak_is = rw e refl;
      resync_is = rw e refl;
      custom_is = rw e refl;
      informer_is = inl (rw e refl);
    }
  ]

  new_informer : Factory K O I → K → ℤ → I
  new_informer f k resync_period =
      new_filtered_request_informer nsi k f.namespace resync_period ("namespace" ∷ [])
        f.tweak_list_options

  made-Serves :
      (s : String) (f : Factory K O I)
      → Serves s f
      → made request_type (new_informer f) f ≡ selected s
  unfolding new_informer new_filtered_request_informer
  made-Serves s f h = rw (h.client_is, h.namespace_is, h.tweak_is, h.resync_is, h.custom_is) refl

  found_or_made-Serves :
      (s : String) (f : Factory K O I) (new_func : K → ℤ → I)
      → Serves s f
      → made request_type new_func f ≡ selected s
      → (o : Option I) → lookup request_type f.informers ≡ o
      → ((found_or_made request_type new_func f o).0 ≡ selected s)
        × Serves s (found_or_made request_type new_func f o).1
  found_or_made-Serves s f new_func h m none e = (
    m,
    record {
      client_is = h.client_is;
      namespace_is = h.namespace_is;
      tweak_is = h.tweak_is;
      resync_is = h.resync_is;
      custom_is = h.custom_is;
      informer_is = inr (
          lookup-insert request_type request_type (made request_type new_func f) f.informers
          ∙ ap some m);
    },
  )
  found_or_made-Serves s f new_func h m (some i) e = (stored h.informer_is, h)
    where
      stored :
          (lookup request_type f.informers ≡ none)
            ⊎ (lookup request_type f.informers ≡ some (selected s))
          → i ≡ selected s
      stored (inl n) = absurd (let x = sym n ∙ e in cc)
      stored (inr y) = some_injective (sym e ∙ y)

  pub request_informer-Serves :
      (s : String) (f : Factory K O I)
      → Serves s f
      → ((request_informer nsi f).0 ≡ selected s) × Serves s (request_informer nsi f).1
  unfolding request_informer informer_for new_informer
  request_informer-Serves s f h =
      found_or_made-Serves s f (new_informer f) h (made-Serves s f h)
        (lookup request_type f.informers) refl

  -- A context has a factory under a selector, which serves `last`.
  unfoldable pub Reads : String → String → Ctx K → Factories K O I → Type 0
  Reads last s ctx h =
      (id : ℕ) × (value (filtered_factory_key s) ctx ≡ some (factory id))
      × (id < h.next)
      × Serves last (h.at id)

  -- A context has an informer under a selector, which serves `last`.
  unfoldable pub Gets : String → String → Ctx K → Factories K O I → Type 0
  Gets last s ctx h =
      (id : ℕ) × (value (filtered_informer_key s) ctx ≡ some (of_factory id))
      × Serves last (h.at id)

  put-here :
      (s : String) (id : ℕ) (f : Factory K O I) (at : ℕ → Factory K O I)
      → Serves s f
      → Serves s (put id f at id)
  put-here s id f at h = rw ((=?_iff id id).1 refl) h

  pub put-Serves :
      (s : String) (id n : ℕ) (f : Factory K O I) (at : ℕ → Factory K O I)
      → (n ≡ id → Serves s f)
      → Serves s (at n)
      → Serves s (put id f at n)
  put-Serves s id n f at same other = elim (Bool-cases (n =? id)) [
    | inl y ↦ rw y (same ((=?_iff n id).0 y))
    | inr e ↦ rw e other
  ]

  pub allocate-new :
      (last s t : String) (ctx : Ctx K) (h : Factories K O I)
      → (t == s) ≡ true
      → Reads last s
          ((filtered_factory_key t, factory h.next) ∷ ctx)
          (allocate (filtered_factory select sc c last) h)
  unfolding Reads
  allocate-new last s t ctx h y = (
    h.next,
    rw y refl,
    omega arith,
    put-here last h.next (filtered_factory select sc c last) h.at (filtered_factory-Serves last),
  )

  pub allocate-Reads :
      (last s t : String) (ctx : Ctx K) (h : Factories K O I)
      → Reads last s ctx h
      → Reads last s
          ((filtered_factory_key t, factory h.next) ∷ ctx)
          (allocate (filtered_factory select sc c last) h)
  unfolding Reads
  allocate-Reads last s t ctx h (id, e, b, v) = elim (Bool-cases (t == s)) [
    | inl y ↦ allocate-new last s t ctx h y
    | inr n ↦ (
      id,
      rw n e,
      omega arith,
      put-Serves last h.next id (filtered_factory select sc c last) h.at (λ q. absurd (omega arith))
          v,
    )
  ]

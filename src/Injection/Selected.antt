-- ===== src/Injection/Selected.antt =====
-- The informers that a context has under its selectors, which all select by the last one.
use resolution.Prelude.{
  ℕ, String, ◌≡◌, refl, ◌∙◌, inl, inr, Bool, true, Bool-cases, some, List, [], ◌∷◌, map, Result, ok,
  ◌>>=◌, ◌==◌, eq_refl,
}
use resolution.Prelude.Int.{ℤ}
use resolution.Informers.{ListWatch}
use resolution.Informers.Requests.{request_informer}
use resolution.Injection.{
  label_key, client_key, filtered_factory_key, filtered_informer_key, client, factory,
  label_selectors, of_factory, Ctx, value, Scope, Factories, put, update, get_client,
}
use resolution.Injection.Filtered.{
  Injected, filtered_factories, filtered_informers, with_filtered_informer_factory,
  with_filtered_informer, get_filtered_factory, get_filtered_informer, selectors_of, last_of,
}
use resolution.Injection.Serving.{
  selected, Serves, Reads, Gets, request_informer-Serves, put-Serves, allocate-new, allocate-Reads,
}
use resolution.Lister.{Every}

module _ {K O I : Type 0} (nsi : ListWatch K O → String → ℤ → List String → I)
    (select : String → O → O) (sc : Scope) (c : K) (last : String) where
  factories-Reads :
      (s : String) (ss : List String) (ctx : Ctx K) (h : Factories K O I)
      → Reads nsi select sc c last s ctx h
      → let (ctx', h') = filtered_factories select sc c last ss ctx h in
        Reads nsi select sc c last s ctx' h'
  unfolding filtered_factories
  factories-Reads s [] ctx h r = r
  factories-Reads s (t ∷ ss) ctx h r =
      factories-Reads s ss _ _ (allocate-Reads nsi select sc c last s t ctx h r)

  -- Every selector has a factory after the loop.
  factories-all :
      (ss : List String) (ctx : Ctx K) (h : Factories K O I)
      → let (ctx', h') = filtered_factories select sc c last ss ctx h in
        Every (λ s. Reads nsi select sc c last s ctx' h') ss
  unfolding filtered_factories
  factories-all [] ctx h = tt
  factories-all (s ∷ ss) ctx h = (
    factories-Reads s ss _ _ (allocate-new nsi select sc c last s s ctx h (eq_refl s)),
    factories-all ss _ _,
  )

  -- Making the informer of a factory changes none that serves a selector.
  update-Serves :
      (id n : ℕ) (h : Factories K O I)
      → Serves nsi select sc c last (h.at n)
      → Serves nsi select sc c last (put id (request_informer nsi (h.at id)).1 h.at n)
  update-Serves id n h v =
      put-Serves nsi select sc c last id n (request_informer nsi (h.at id)).1 h.at
        (λ e. (request_informer-Serves nsi select sc c last (h.at id) (rw⁻¹ e v)).1) v

  informed : ℕ → String → Ctx K → Ctx K
  informed id t ctx = (filtered_informer_key t, of_factory id) ∷ ctx

  inform-Reads :
      (s t : String) (id : ℕ) (ctx : Ctx K) (h : Factories K O I)
      → Reads nsi select sc c last s ctx h
      → Reads nsi select sc c last s
          (informed id t ctx)
          (update id (request_informer nsi (h.at id)).1 h)
  unfolding Reads informed
  inform-Reads s t id ctx h (n, e, b, v) = (n, e, b, update-Serves id n h v)

  inform-new :
      (s t : String) (id : ℕ) (ctx : Ctx K) (h : Factories K O I)
      → (t == s) ≡ true
      → Serves nsi select sc c last (h.at id)
      → Gets nsi select sc c last s
          (informed id t ctx)
          (update id (request_informer nsi (h.at id)).1 h)
  unfolding Gets informed
  inform-new s t id ctx h y v = (id, rw y refl, update-Serves id id h v)

  inform-Gets :
      (s t : String) (id : ℕ) (ctx : Ctx K) (h : Factories K O I)
      → Serves nsi select sc c last (h.at id)
      → Gets nsi select sc c last s ctx h
      → Gets nsi select sc c last s
          (informed id t ctx)
          (update id (request_informer nsi (h.at id)).1 h)
  unfolding Gets informed
  inform-Gets s t id ctx h u (n, e, v) = elim (Bool-cases (t == s)) [
    | inl y ↦ inform-new s t id ctx h y u
    | inr f ↦ (n, rw f e, update-Serves id n h v)
  ]

  got :
      (ctx : Ctx K) (s : String) (id : ℕ)
      → value (filtered_factory_key s) ctx ≡ some (factory id)
      → get_filtered_factory ctx s ≡ ok id
  unfolding get_filtered_factory
  got ctx s id e = rw (e, get_filtered_factory) refl

  -- What withInformer comes to in a context with a factory for each selector
  record Informs (ss : List String) (ctx : Ctx K) (h : Factories K O I) : Type 0 where
    x : Injected K O I
    runs : filtered_informers nsi ss ctx h ≡ ok x
    informers_are : x.informers ≡ map (λ s. selected nsi select sc c last) ss
    keeps :
        (s : String)
        → Gets nsi select sc c last s ctx h
        → Gets nsi select sc c last s x.ctx x.factories
    gets : Every (λ s. Gets nsi select sc c last s x.ctx x.factories) ss

  informs-Reads :
      (t : String) (id : ℕ) (ctx : Ctx K) (h : Factories K O I) (ss : List String)
      → Every (λ s. Reads nsi select sc c last s ctx h) ss
      → Every
          (λ s.
            Reads nsi select sc c last s
              (informed id t ctx)
              (update id (request_informer nsi (h.at id)).1 h))
          ss
  informs-Reads t id ctx h [] r = tt
  informs-Reads t id ctx h (s ∷ ss) r =
      (inform-Reads s t id ctx h r.0, informs-Reads t id ctx h ss r.1)

  informs :
      (ss : List String) (ctx : Ctx K) (h : Factories K O I)
      → Every (λ s. Reads nsi select sc c last s ctx h) ss
      → Informs ss ctx h
  unfolding filtered_informers Reads informed
  informs [] ctx h r = record {
    x = record { ctx = ctx; informers = []; factories = h };
    runs = refl;
    informers_are = refl;
    keeps = λ s g. g;
    gets = tt;
  }
  informs (t ∷ ss) ctx h r =
      let (id, e, b, v) = r.0 in
      let next =
        informs ss (informed id t ctx) (update id (request_informer nsi (h.at id)).1 h)
          (informs-Reads t id ctx h ss r.1) in
      record {
        x = record next.x { informers = (request_informer nsi (h.at id)).0 ∷ next.x.informers };
        runs = rw (got ctx t id e) (rw next.runs refl);
        informers_are =
            rw ((request_informer-Serves nsi select sc c last (h.at id) v).0, next.informers_are)
              refl;
        keeps = λ s g. next.keeps s (inform-Gets s t id ctx h v g);
        gets = (next.keeps t (inform-new t t id ctx h (eq_refl t) v), next.gets);
      }

  factories-label :
      (ss : List String) (ctx : Ctx K) (h : Factories K O I)
      → value label_key (filtered_factories select sc c last ss ctx h).0 ≡ value label_key ctx
  unfolding filtered_factories
  factories-label [] ctx h = refl
  factories-label (t ∷ ss) ctx h = factories-label ss _ _

  chosen :
      (ctx : Ctx K) (ss : List String)
      → value label_key ctx ≡ some (label_selectors ss)
      → selectors_of ctx ≡ ok ss
  chosen ctx ss e = rw (e, selectors_of) refl

  -- The informer that a context gives for a selector is that of a factory for `last`.
  abbrev pub GivesLast : Injected K O I → String → Type 0
  GivesLast x s =
      (id : ℕ) × (get_filtered_informer x.ctx s ≡ ok (of_factory id))
      × ((request_informer nsi (x.factories.at id)).0 ≡ selected nsi select sc c last)

  gives :
      (x : Injected K O I) (ss : List String)
      → Every (λ s. Gets nsi select sc c last s x.ctx x.factories) ss
      → Every (GivesLast x) ss
  unfolding Gets get_filtered_informer
  gives x [] g = tt
  gives x (s ∷ ss) ((id, e, v), g) = (
    (
      id,
      rw (e, get_filtered_informer) refl,
      (request_informer-Serves nsi select sc c last (x.factories.at id) v).0,
    ),
    gives x ss g,
  )

module _ {K O I : Type 0} (nsi : ListWatch K O → String → ℤ → List String → I)
    (select : String → O → O) (sc : Scope) (c : K) where
  -- The factories and then the informers, as injection runs the two
  unfoldable pub with_informers : Bool → Ctx K → Factories K O I → Result String (Injected K O I)
  unfolding with_filtered_informer_factory with_filtered_informer
  with_informers configured ctx h =
      with_filtered_informer_factory select sc configured ctx h >>= λ p.
      with_filtered_informer nsi p.0 p.1

  -- In a context with a client and with selectors, whatever factories there are before, withInformer after
  -- withInformerFactory does not panic. It starts, for each selector, an informer of the requests in the
  -- namespace scope that lists and watches with the last of the selectors, whichever its own is, and with
  -- the resync period; and Get gives for each selector such an informer.
  pub with_informers-last :
      (configured : Bool) (ss : List String) (ctx : Ctx K) (h : Factories K O I)
      → value client_key ctx ≡ some (client c)
      → value label_key ctx ≡ some (label_selectors ss)
      → (x : Injected K O I) × (with_informers configured ctx h ≡ ok x)
        × (x.informers ≡ map (λ s. selected nsi select sc c (last_of "" ss)) ss)
        × Every (GivesLast nsi select sc c (last_of "" ss) x) ss
  unfolding with_informers with_filtered_informer_factory with_filtered_informer
  with_informers-last configured ss ctx h client_at label_at =
      let last = last_of "" ss in
      let p = filtered_factories select sc c last ss ctx h in
      let done =
        informs nsi select sc c last ss p.0 p.1 (factories-all nsi select sc c last ss ctx h) in
      (
        done.x,
        rw (client_at, get_client)
            (rw (chosen nsi select sc c last ctx ss label_at) (
              rw
                (chosen nsi select sc c last p.0 ss
                  (factories-label nsi select sc c last ss ctx h ∙ label_at))
                done.runs)),
        done.informers_are,
        gives nsi select sc c last done.x ss done.gets,
      )

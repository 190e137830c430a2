-- ===== src/System/Protocol/Offered.antt =====
-- What a client reads was offered by a resolver.
use mathlib.Core.List.{Memᴰ}
use mathlib.Core.List.Memᴰ.{cases_cons, not-nil}
use mathlib.Core.Path.{subst}
use resolution.Prelude.{
  ℕ, String, ◌≡◌, ◌≢◌, refl, sym, ap, ◌∙◌, inl, inr, true, false, none, some, [], some_injective,
  arith, Bool-cases, Result, ok, ◌⊎◌,
}
use resolution.Api.{ResolutionRequestStatus, ResolutionRequest}
use resolution.Api.Lifecycle.{get_condition, mark_failed}
use resolution.Base64.{encode}
use resolution.Api.Lifecycle.Marks.{get-mark_failed, fields-mark_failed}
use resolution.Resource.{Request}
use resolution.Resource.Requester.{ReadOnly, get_data, submit, submitted}
use resolution.Visit.Outdated.{kept_fields}
use resolution.Visit.Incomplete.{processed-IsIncomplete}
use resolution.Framework.{ResolvedResource}
use resolution.System.RoundTrip.{encode-ne-nil, get_data-encode}
use resolution.Base64.RoundTrip.{AllBytes}
use resolution.Common.Errors.{Error}
use resolution.Resource.Requester.Answers.{submit-ok}
use resolution.System.Protocol.{
  Rules, World, core_copy, Write, fail, attach, complete, redo, Step, read, create, write, delete,
  pass, Steps, Steps-keep,
}

submitted_empty :
    (resolver : String) (req : Request)
    → ((submitted resolver req).status.fields.payload ≡ [])
      × ((submitted resolver req).status.duck.conditions ≡ [])
unfolding submitted
submitted_empty resolver req = ground arith

module _ {C : Type 0} (rules : Rules C)
    (some_bytes : (resource : ResolvedResource)
      → rules.offered resource
      → resource.content ≢ []) where
  -- No data, or that of a resource that some resolver offered.
  abbrev IsOffered : ResolutionRequestStatus → Type 0
  IsOffered s =
      (s.fields.payload ≡ [])
      ⊎ ((resource : ResolvedResource) × rules.offered resource
          × (s.fields.payload ≡ encode resource.content))

  -- A status has offered data or none, and it has data if it is true.
  record IsSound (s : ResolutionRequestStatus) : Type 0 where
    data_ : IsOffered s
    complete_ : rules.manager.is_true (get_condition rules.manager s) ≡ true → s.fields.payload ≢ []

  was_true :
      (s : ResolutionRequest) (now later : ℕ)
      → s.status.fields.payload ≡ []
      → rules.manager.is_true (get_condition rules.manager (core_copy rules now later s).status)
        ≡ true
      → rules.manager.is_true (get_condition rules.manager s.status) ≡ true
  was_true s now later e t =
      elim (Bool-cases (rules.manager.is_true (get_condition rules.manager s.status))) [
        | inl yes_ ↦ yes_
        | inr no_ ↦
            let h =
              processed-IsIncomplete rules.manager rules.server rules.support now later s e no_ in
            cc
      ]

  copy-IsSound :
      (s : ResolutionRequest) (now later : ℕ)
      → IsSound s.status
      → IsSound (core_copy rules now later s).status
  copy-IsSound s now later h =
      let fields = kept_fields rules.manager rules.server rules.support now later s in
      let payload = ap (λ f. f.payload) fields in
      record {
        data_ = subst (λ f. IsOffered (record s.status { fields = f })) (sym fields) h.data_;
        complete_ = λ t e. h.complete_ (was_true s now later (sym payload ∙ e) t) (sym payload ∙ e);
      }

  Write-IsSound :
      (w : World) (old : ResolutionRequest) (s : ResolutionRequestStatus)
      → Write rules w.seen old s
      → ((x : ResolutionRequest) → Memᴰ x w.seen → IsSound x.status)
      → IsSound old.status
      → IsSound s
  Write-IsSound w old _ (fail s reason message m e open_) known h =
      let failed : rules.manager.is_true
            (get_condition rules.manager (mark_failed rules.manager reason message s.status))
          ≡ false =
        ap rules.manager.is_true (get-mark_failed rules.manager s.status reason message)
        ∙ rules.manager.is_true-some _ in
      let fields = fields-mark_failed rules.manager s.status reason message in
      record {
        data_ =
            subst (λ f. IsOffered (record s.status { fields = f })) (sym fields) (known s m).data_;
        complete_ = λ t. cc;
      }
  Write-IsSound w old _ (attach resource o) known h = record {
    data_ = inr (resource, o, refl);
    complete_ = λ t. encode-ne-nil resource.content (some_bytes resource o);
  }
  Write-IsSound w old _ (complete s now later m e) known h = copy-IsSound s now later (known s m)
  Write-IsSound w old _ (redo s now later again m) known h = copy-IsSound s now later (known s m)

  submitted-IsSound : (resolver : String) (req : Request) → IsSound (submitted resolver req).status
  submitted-IsSound resolver req =
      let (payload, conditions) = submitted_empty resolver req in
      let incomplete : rules.manager.is_true
            (get_condition rules.manager (submitted resolver req).status)
          ≡ false =
        ap (λ cs. rules.manager.is_true (rules.manager.get_condition cs)) conditions
        ∙ ap rules.manager.is_true rules.manager.get_condition-nil
        ∙ rules.manager.is_true-none in
      record { data_ = inl payload; complete_ = λ t. cc }

  record IsSoundWorld (w : World) : Type 0 where
    stored : (rr : ResolutionRequest) → w.stored ≡ some rr → IsSound rr.status
    seen : (s : ResolutionRequest) → Memᴰ s w.seen → IsSound s.status

  Step-IsSoundWorld : (u v : World) → Step rules u v → IsSoundWorld u → IsSoundWorld v
  Step-IsSoundWorld _ _ (read w rr st) h = record {
    stored = h.stored;
    seen = λ s m. elim (cases_cons m) [
      | inl e ↦ subst (λ x. IsSound x.status) (sym e) (h.stored rr st)
      | inr n ↦ h.seen s n
    ];
  }
  Step-IsSoundWorld _ _ (create w resolver req time generation v n st l b) h = record {
    stored =
        λ rr at. subst (λ x. IsSound x.status) (some_injective at) (submitted-IsSound resolver req);
    seen = h.seen;
  }
  Step-IsSoundWorld _ _ (write w old s v n st wr l b) h = record {
    stored = λ rr at.
        subst (λ x. IsSound x.status) (some_injective at)
          (Write-IsSound w old s wr h.seen (h.stored old st));
    seen = h.seen;
  }
  Step-IsSoundWorld _ _ (delete w n d l) h = record { stored = λ rr at. cc; seen = h.seen }
  Step-IsSoundWorld _ _ (pass w n l) h = record { stored = h.stored; seen = h.seen }

  -- A cluster without the request
  abbrev pub empty : ℕ → World
  empty n = record { stored = none; revision = n; seen = [] }

  empty-IsSoundWorld : (n : ℕ) → IsSoundWorld (empty n)
  empty-IsSoundWorld n = record { stored = λ rr at. cc; seen = λ s m. absurd (not-nil m) }

  -- A request that was read at any time and is true has the data of some resource that a resolver
  -- offered.
  seen_offered :
      (n : ℕ) (w : World) (rr : ResolutionRequest)
      → Steps rules (empty n) w
      → Memᴰ rr w.seen
      → rules.manager.is_true (get_condition rules.manager rr.status) ≡ true
      → (resource : ResolvedResource) × rules.offered resource
        × (rr.status.fields.payload ≡ encode resource.content)
  seen_offered n w rr s m t =
      let sound =
        (Steps-keep rules IsSoundWorld Step-IsSoundWorld (empty n) w s (empty-IsSoundWorld n)).seen
          rr m in
      elim sound.data_ [ inl e ↦ absurd (sound.complete_ t e) | inr o ↦ o ]

  -- After any steps from a cluster without the request, a client to whom a version of it, old or new,
  -- is listed, and whom Submit answers with a resource, reads the bytes of a resource that one of the
  -- resolvers offered, if all that they offer has some bytes, each below 256.
  pub submit-offered :
      ((resource : ResolvedResource) → rules.offered resource → AllBytes resource.content)
      → (n : ℕ) (w : World) (rr : ResolutionRequest) (ro : ReadOnly) → Steps rules (empty n) w
      → Memᴰ rr w.seen
      → (lister : String → String → Result Error ResolutionRequest) (resolver : String)
        (req : Request) (c : C)
      → lister req.namespace req.name ≡ ok rr
      → (submit rules.manager rules.server lister resolver req c).0 ≡ ok ro
      → (resource : ResolvedResource) × rules.offered resource × (get_data ro ≡ ok resource.content)
  submit-offered bytes n w rr ro s m lister resolver req c l answered =
      let (t, e) = submit-ok rules.manager rules.server lister resolver req c rr ro l answered in
      let (resource, o, p) = seen_offered n w rr s m t in
      (resource, o, ap get_data e ∙ get_data-encode rr resource.content (bytes resource o) p)

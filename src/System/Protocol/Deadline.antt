-- ===== src/System/Protocol/Deadline.antt =====
-- A request past its deadline is ended by the next visit of its stored version.
use mathlib.Core.Path.{subst, subst₂}
use resolution.Prelude.{
  ℕ, ◌+◌, ◌<◌, not, String, ◌≡◌, refl, sym, ap, ◌∙◌, Bool, true, false, Option, none, some, List,
  [], Result, ok, arith,
}
use resolution.Common.Errors.{Error}
use resolution.Api.{Condition, ResolutionRequest}
use resolution.Api.Lifecycle.{get_condition, is_done}
use resolution.Core.{reconcile_request}
use resolution.Core.Outcomes.{deadline, reconcile_request-SameButConditions}
use resolution.Core.Timeout.{late-is_done}
use resolution.Knative.Manager.{Manager}
use resolution.System.Protocol.{Rules, core_copy}
use resolution.System.Protocol.Ended.{HasEnded}
use resolution.System.Protocol.Outcomes.{Calls-HasEnded}
use resolution.System.Protocol.Refines.{Knows, Unretried, Calls, Calls-append, call, visits, finish}
use resolution.Visit.{update_status, visit}
use resolution.Visit.Fresh.{visit-settles}

negated : (b : Bool) → not b ≡ true → b ≡ false
negated b h = ground arith

-- A request that is done has a condition, and that is final.
done-condition :
    (k : Manager) (rr : ResolutionRequest)
    → is_done k rr ≡ true
    → (c : Condition) × (get_condition k rr.status ≡ some c) × (k.is_unknown (some c) ≡ false)
unfolding is_done
done-condition k rr d = found (get_condition k rr.status) refl
  where
    found :
        (o : Option Condition)
        → get_condition k rr.status ≡ o
        → (c : Condition) × (get_condition k rr.status ≡ some c) × (k.is_unknown (some c) ≡ false)
    found none e =
        absurd (let x = ap (λ o. not (k.is_unknown o)) e in let y = k.is_unknown-none in cc)
    found (some c) e =
        (c, e, negated (k.is_unknown (some c)) (ap (λ o. not (k.is_unknown o)) (sym e) ∙ d))

module _ {C : Type 0} (rules : Rules C) where
  -- The core controller's copy, past the deadline
  copy-ends :
      (original : ResolutionRequest) (now later : ℕ)
      → deadline original < now
      → (c : Condition) × (rules.manager.is_unknown (some c) ≡ false)
        × (get_condition rules.manager (core_copy rules now later original).status ≡ some c)
        × ((core_copy rules now later original).status.duck.observed_generation
            ≡ original.object_meta.generation)
  copy-ends original now later late =
      let pre = rules.support.pre_process original in
      let kept = (rules.support.pre_process-kept original).object_meta in
      let (c, has, final) =
        done-condition rules.manager (reconcile_request rules.manager now later pre).1 (
          late-is_done rules.manager now later pre
            (subst (λ m. m.creation_timestamp + 60_000_000_000 < now) (sym kept) late)) in
      (
        c,
        final,
        rules.support.post_process-condition _ original ∙ has,
        rules.support.post_process-observed _ original
            ∙ ap (λ m. m.generation)
                ((reconcile_request-SameButConditions rules.manager now later pre).object_meta
                  ∙ kept),
      )

module _ {C : Type 0} (rules : Rules C) (ns name : String) where
  -- In runs in which no visit retries its update, as none does that meets no conflict, and in which no
  -- request is deleted, after any calls of the client and the
  -- controllers: a visit of the core controller by the key's leader, to a request that is listed as it is
  -- stored, that is not being deleted and whose deadline has passed, ends the request, if its update of the
  -- status, where it makes one, is accepted. The request then has a final condition for the generation
  -- that it has, and keeps it, whatever calls come after.
  pub late-HasEnded :
      (s₀ s₁ s₂ : C) (seen seen' : List ResolutionRequest) (original : ResolutionRequest)
      (split : String → Result Error (String × String)) (is_leader_for : String → String → Bool)
      (lister : String → String → Result Error ResolutionRequest) (now later : ℕ) (key : String)
      → rules.retries ≡ false
      → rules.deletions ≡ false
      → Calls rules ns name [] s₀ seen s₁
      → rules.server.stored ns name s₁ ≡ some original
      → split key ≡ ok (ns, name)
      → is_leader_for ns name ≡ true
      → lister ns name ≡ ok original
      → Knows rules ns name seen lister
      → Unretried rules ns name lister now later s₁
      → original.object_meta.deletion_timestamp ≡ none
      → deadline original < now
      → (update_status rules.manager rules.server rules.support original
          (core_copy rules now later original)
          s₁).0
        ≡ none
      → Calls rules ns name seen
          (visit rules.manager rules.server rules.support split is_leader_for lister now later key
            s₁).1
          seen'
          s₂
      → (c : Condition) × (rules.manager.is_unknown (some c) ≡ false)
        × ((new : ResolutionRequest) × (rules.server.stored ns name
                (visit rules.manager rules.server rules.support split is_leader_for lister now later
                  key s₁).1
              ≡ some new)
            × HasEnded rules c new)
        × ((final : ResolutionRequest) × (rules.server.stored ns name s₂ ≡ some final)
            × HasEnded rules c final)
  late-HasEnded s₀ s₁ s₂ seen seen' original split is_leader_for lister now later key never stays
        before at keyed leads listed knows unretried alive late accepted after =
      let (at_ns, at_name) = rules.server.stored_name ns name s₁ original at in
      let (c, final, has, observed) = copy-ends rules original now later late in
      let held : rules.server.stored original.object_meta.namespace original.object_meta.name s₁
          ≡ some original =
        subst₂ (λ x y. rules.server.stored x y s₁ ≡ some original) (sym at_ns) (sym at_name) at in
      let settled =
        visit-settles rules.manager rules.server rules.support now later original s₁ held alive
          split is_leader_for lister key ns name keyed leads listed
          (unretried ns name original listed) accepted in
      let left =
        visit rules.manager rules.server rules.support split is_leader_for lister now later key
          s₁ in
      let there : rules.server.stored ns name left.1 ≡ some settled.new =
        subst₂ (λ x y. rules.server.stored x y left.1 ≡ some settled.new) at_ns at_name
          settled.at in
      let ended : HasEnded rules c settled.new = record {
        condition = settled.condition ∙ has;
        observed = settled.observed ∙ observed ∙ sym settled.generation;
      } in
      let run = Calls-append rules ns name _ _ _ _ _ _ before (
        call _ _ _ _ _ _
          (visits seen s₁ split is_leader_for lister now later key knows (λ _. unretried))
          (finish seen left.1)) in
      (
        c,
        final,
        (settled.new, there, ended),
        Calls-HasEnded rules ns name c final never stays s₀ left.1 s₂ seen seen' settled.new run
            there ended after,
      )

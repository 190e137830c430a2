-- ===== src/Framework/Writes.antt =====
-- What resolve() does to the stored request, from the case of its select.
use resolution.Prelude.{
  ◌≡◌, refl, sym, ap, ◌∙◌, true, false, Option, none, some, Result, ok, err, arith, sprintf,
}
use mathlib.Core.Path.{subst}
use resolution.Common.Errors.{Error, message, message-reason_error, reason_error}
use resolution.Api.{condition_false, ResolutionRequest}
use resolution.Api.Lifecycle.{get_condition, is_done, mark_failed}
use resolution.Api.Lifecycle.Marks.{get-mark_failed, fields-mark_failed}
use resolution.Base64.{encode}
use resolution.Cluster.{
  ApiServer, StatusDataPatch, marshal, document, marshal-document, merge_status, with_status,
}
use resolution.Knative.Manager.{Manager, succeeded}
use resolution.Knative.Outcome.{permanent}
use resolution.Framework.{
  ResolvedResource, on_error, write_resolved_data, conclude, written, patched, received,
  on_resource_chan,
}

module _ {C : Type 0} (k : Manager) (a : ApiServer C) where
  -- The request that a writer finds under the name of `rr`.
  abbrev pub find_stored : ResolutionRequest → C → Option ResolutionRequest
  find_stored rr c = a.stored rr.object_meta.namespace rr.object_meta.name c

  abbrev pub fetched : ResolutionRequest → C → Result Error ResolutionRequest
  fetched rr c = a.get rr.object_meta.namespace rr.object_meta.name c

  -- The update that MarkFailed asks for, and what the server answers.
  abbrev pub failing : ResolutionRequest → Error → ResolutionRequest
  failing latest e = record latest {
    status = mark_failed k (reason_error e).0 (message (reason_error e).1) latest.status;
  }

  abbrev pub Accepts : ResolutionRequest → Error → ResolutionRequest → C → Type 0
  Accepts rr e latest c =
      (u : ResolutionRequest) × ((a.update_status rr.object_meta.namespace (failing latest e) c).0
        ≡ ok u)

  renamed :
      (rr latest : ResolutionRequest) (c : C)
      → find_stored rr c ≡ some latest
      → a.stored rr.object_meta.namespace latest.object_meta.name c ≡ some latest
  renamed rr latest c h =
      subst (λ n. a.stored rr.object_meta.namespace n c ≡ some latest)
        (sym (a.stored_name _ _ c latest h).1) h

  -- A request that the server has as done is not written.
  pub on_error-done :
      (rr latest : ResolutionRequest) (e : Error) (c : C)
      → fetched rr c ≡ ok latest
      → is_done k latest ≡ true
      → on_error k a (some rr) (some e) c ≡ (some (permanent (some e)), c)
  unfolding on_error
  on_error-done rr latest e c g d = ground arith

  -- Nor is one that cannot be read.
  pub on_error-missing :
      (rr : ResolutionRequest) (e e' : Error) (c : C)
      → fetched rr c ≡ err e'
      → (on_error k a (some rr) (some e) c).1 ≡ c
  unfolding on_error
  on_error-missing rr e e' c g = ground arith

  written_state : (x : Result Error ResolutionRequest × C) → (written k a x).1 ≡ x.1
  written_state (ok u, c) = refl
  written_state (err e, c) = refl

  -- The cluster after an error is that after the update.
  pub on_error-update :
      (rr latest : ResolutionRequest) (e : Error) (c : C)
      → fetched rr c ≡ ok latest
      → is_done k latest ≡ false
      → (on_error k a (some rr) (some e) c).1
        ≡ (a.update_status rr.object_meta.namespace (failing latest e) c).1
  unfolding on_error
  on_error-update rr latest e c g d =
      ground (arith, written_state (a.update_status rr.object_meta.namespace (failing latest e) c))

  -- Where the update is accepted, the stored request has failed with the error's reason and message.
  pub on_error-failed :
      (rr latest : ResolutionRequest) (e : Error) (c : C)
      → fetched rr c ≡ ok latest
      → is_done k latest ≡ false
      → Accepts rr e latest c
      → (new : ResolutionRequest) × (find_stored rr (on_error k a (some rr) (some e) c).1
          ≡ some new)
        × (get_condition k new.status
            ≡ some (succeeded condition_false (reason_error e).0 (sprintf (message e))))
        × (new.status.fields ≡ latest.status.fields)
        × (new.spec ≡ latest.spec)
  on_error-failed rr latest e c g d (u, ac) =
      let found = a.get-ok _ _ c latest g in
      let (v, stored) =
        a.update_status-ok _ (failing latest e) u latest c (renamed rr latest c found) ac in
      (
        with_status latest (failing latest e).status v,
        rw (on_error-update rr latest e c g d) (
            subst
              (λ n.
                a.stored rr.object_meta.namespace n
                  (a.update_status rr.object_meta.namespace (failing latest e) c).1
                ≡ some (with_status latest (failing latest e).status v))
              (a.stored_name _ _ c latest found).1 stored),
        get-mark_failed k _ _ _
            ∙ ap (λ m. some (succeeded condition_false (reason_error e).0 (sprintf m)))
                (message-reason_error e),
        fields-mark_failed k _ _ _,
        refl,
      )

  -- Every answer of OnError for an error is that error, as one that is not retried.
  pub on_error-answer :
      (rr : Option ResolutionRequest) (e : Error) (c : C)
      → (on_error k a rr (some e) c).0 ≡ some (permanent (some e))
  unfolding on_error
  on_error-answer none e c = refl
  on_error-answer (some rr) e c = refl

  -- The patch that carries a resource.
  abbrev pub patch_of : ResolvedResource → StatusDataPatch
  patch_of resource = record {
    payload = encode resource.content;
    annotations = resource.annotations;
  }

  abbrev pub patch_call :
      ResolutionRequest → ResolvedResource → C → Result Error ResolutionRequest × C
  patch_call rr resource c =
      a.patch_status rr.object_meta.namespace rr.object_meta.name (document (patch_of resource)) c

  pub write_resolved_data-patched :
      (rr : ResolutionRequest) (resource : ResolvedResource) (c : C)
      → write_resolved_data k a rr resource c ≡ patched k a rr (patch_call rr resource c)
  unfolding write_resolved_data marshal
  write_resolved_data-patched rr resource c = refl

  patched-ok :
      (rr u : ResolutionRequest) (x : Result Error ResolutionRequest × C)
      → x.0 ≡ ok u
      → patched k a rr x ≡ (none, x.1)
  patched-ok rr u (ok u', c) h = refl
  patched-ok rr u (err e, c) h = cc

  -- An accepted patch puts the encoded bytes and the annotations into whatever request is stored: it
  -- asks for no version and does not look at the conditions, which stay as they are.
  pub conclude-resource :
      (rr old u : ResolutionRequest) (resource : ResolvedResource) (c : C)
      → find_stored rr c ≡ some old
      → (patch_call rr resource c).0 ≡ ok u
      → (new : ResolutionRequest) × ((conclude k a rr (received (on_resource_chan resource)) c).0
          ≡ none)
        × (find_stored rr (conclude k a rr (received (on_resource_chan resource)) c).1 ≡ some new)
        × (new.status ≡ merge_status (patch_of resource) old.status)
        × (new.spec ≡ old.spec)
  unfolding conclude
  conclude-resource rr old u resource c st ac =
      let e = write_resolved_data-patched rr resource c ∙ patched-ok rr u _ ac in
      let (v, stored) =
        a.patch_status-ok _ _ (patch_of resource) (document (patch_of resource)) u old c
          (marshal-document (patch_of resource)) st ac in
      (
        with_status old (merge_status (patch_of resource) old.status) v,
        ap (λ r. r.0) e,
        ap (λ r. find_stored rr r.1) e ∙ stored,
        refl,
        refl,
      )

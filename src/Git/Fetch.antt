-- ===== src/Git/Fetch.antt =====
-- What the git resolver returns.
use mathlib.Core.Path.{subst}
use resolution.Prelude.{
  first_step, next_step, ok_injective, find, Option, Option-cases, String, ◌≡◌, ◌≢◌, ◌↔◌, ◌⊎◌, refl,
  ap, ◌∙◌, none, some, GoMap, index, Result, ok, err, inl, inr,
}
use resolution.Prelude.Int.{ℤ}
use resolution.Common.Errors.{Error, invalid_request, message}
use resolution.Common.Context.{Ctx}
use resolution.Api.{ResolutionRequest}
use resolution.Framework.{ResolvedResource, Sent, worker, resolved, on_err_chan, on_resource_chan}
use resolution.Git.{
  GitLibrary, annotation_key_commit_hash, ResolvedGitResource, path_param, url_param, commit_param,
  branch_param, clone_options, commit_of, resolve, git_resolver, git_annotations, as_resource,
  validate_params, answer,
}
use resolution.Git.Params.{validate_params_iff}

module _ {R W H F : Type 0} (g : GitLibrary R W H F) where
  -- The bytes of the file at the path, in the commit, in a clone of the repository.
  pub record Fetched (params : GoMap) (r : ResolvedGitResource) : Type 0 where
    pub repository : R
    pub w : W
    pub files : W
    pub f : F
    pub cloned : g.clone (clone_options g params) ≡ ok repository
    pub at : commit_of g params repository ≡ ok r.commit
    tree : g.worktree repository ≡ ok w
    checked_out : g.checkout (g.new_hash r.commit) w ≡ ok files
    pub opened : g.open_file (index path_param params) files ≡ ok f
    pub read : g.read_all f ≡ ok r.content

module _ {R W H F : Type 0} (g : GitLibrary R W H F) (params : GoMap)
    (r : ResolvedGitResource) where
  resolve→Fetched : resolve g params ≡ ok r → Fetched g params r
  unfolding resolve
  resolve→Fetched h =
      let (repository, c, h1) = first_step _ (g.clone (clone_options g params)) _ r h in
      let (commit, a, h2) = next_step (commit_of g params repository) _ r h1 in
      let (w, t, h3) = first_step _ (g.worktree repository) _ r h2 in
      let (files, o, h4) = first_step _ (g.checkout (g.new_hash commit) w) _ r h3 in
      let (f, p, h5) = first_step _ (g.open_file (index path_param params) files) _ r h4 in
      let (content, d, h6) = first_step _ (g.read_all f) _ r h5 in
      let same : record { commit = commit; content = content } ≡ r = ok_injective h6 in
      subst (Fetched g params) same (record {
        repository = repository;
        w = w;
        files = files;
        f = f;
        cloned = c;
        at = a;
        tree = t;
        checked_out = o;
        opened = p;
        read = d;
      })

  Fetched→resolve : Fetched g params r → resolve g params ≡ ok r
  unfolding resolve
  Fetched→resolve x =
      rw x.cloned (rw x.at (rw x.tree (rw x.checked_out (rw x.opened (rw x.read refl)))))

  -- Resolve returns a resource exactly when every step of a fetch succeeds and the resource is its
  -- commit and the bytes of its file.
  resolve_iff : (resolve g params ≡ ok r) ↔ Fetched g params r
  resolve_iff = (resolve→Fetched, Fetched→resolve)

module _ {R W H F : Type 0} (g : GitLibrary R W H F) (parse : String → Result Error ℤ) where
  answered :
      (x : Result Error ResolvedGitResource) (resource : ResolvedResource) (name key : String)
      → resolved name key (answer x) ≡ on_resource_chan resource
      → (r : ResolvedGitResource) × (x ≡ ok r) × (resource ≡ as_resource r)
  answered (ok r) resource name key h = (r, refl, cc)
  answered (err e) resource name key h = cc

  sends :
      (ctx : Ctx) (key : String) (rr : ResolutionRequest) (resource : ResolvedResource)
      → worker (git_resolver g parse) ctx key rr ≡ on_resource_chan resource
      → (validate_params rr.spec.parameters ≡ none)
        × (resolved "Git" key (answer (resolve g rr.spec.parameters)) ≡ on_resource_chan resource)
  unfolding worker
  sends ctx key rr resource h = elim (Option-cases (validate_params rr.spec.parameters)) [
    | inl e ↦ (e, subst (λ o. sent o ≡ on_resource_chan resource) e h)
    | inr (e, v) ↦ absurd (bad (subst (λ o. sent o ≡ on_resource_chan resource) v h))
  ]
    where
      sent : Option Error → Sent
      sent o = elim o [
        | some e ↦ on_err_chan (some (invalid_request key (message e)))
        | none ↦ resolved "Git" key (answer (resolve g rr.spec.parameters))
      ]

      bad : {e : Option Error} → on_err_chan e ≡ on_resource_chan resource → ⊥
      bad h = cc

  -- What the git resolver's goroutine sends as a resource has a request with a url and a path, and
  -- not both a commit and a branch, and is the file of a successful fetch with its commit as an
  -- annotation.
  pub worker-git :
      (ctx : Ctx) (key : String) (rr : ResolutionRequest) (resource : ResolvedResource)
      → worker (git_resolver g parse) ctx key rr ≡ on_resource_chan resource
      → (r : ResolvedGitResource) × Fetched g rr.spec.parameters r
        × (resource.content ≡ r.content)
        × (find annotation_key_commit_hash resource.annotations ≡ some r.commit)
        × ((index url_param rr.spec.parameters ≢ "")
            × (index path_param rr.spec.parameters ≢ "")
            × ((index commit_param rr.spec.parameters ≡ "")
                ⊎ (index branch_param rr.spec.parameters ≡ "")))
  unfolding git_annotations
  worker-git ctx key rr resource h =
      let (valid, s) = sends ctx key rr resource h in
      let (r, e, same) = answered (resolve g rr.spec.parameters) resource "Git" key s in
      (
        r,
        resolve→Fetched g rr.spec.parameters r e,
        ap (λ x. x.content) same,
        ap (λ x. find annotation_key_commit_hash x.annotations) same ∙ refl,
        (validate_params_iff rr.spec.parameters).0 valid,
      )

-- ===== src/Git/Tests.antt =====
-- Fetches from a repository with one file.
use Prim.Native.String.{◌++◌ as append}
use mathlib.Core.Path.{subst}
use resolution.Prelude.{
  ℕ, sym, ap, arith, Option, String, ◌≡◌, ◌≢◌, ◌⊎◌, refl, none, some, [], ◌∷◌, GoMap, find, index,
  Result, ok, err, ◌==◌, if◌then◌else◌, quote,
}
use resolution.Prelude.Int.{ℤ, pos, ◌≤ℤ◌}
use resolution.Common.Errors.{Error, plain, message, deadline_exceeded}
use resolution.Api.{Bytes, condition_false, ResolutionRequest}
use resolution.Api.Lifecycle.{get_condition, is_done}
use resolution.Cluster.Memory.{memory}
use resolution.Common.{reason_resolution_failed}
use resolution.Common.Context.{value, get_resolver_config, inject_resolver_config}
use resolution.Framework.{
  Reconciler, get_config, worker, context_ends, reconcile, request_ctx, timeout_duration,
}
use resolution.Framework.Selection.{deadline_reached}
use resolution.Framework.Writes.{find_stored}
use resolution.Git.{get_resolution_timeout}
use resolution.Git.Timeout.{reconcile-fetch_timeout}
use resolution.Knative.Batch.{batch}
use resolution.Knative.Manager.{succeeded}
use resolution.Git.{
  CloneOptions, GitLibrary, ResolvedGitResource, url_param, path_param, commit_param, branch_param,
  validate_params, resolve, git_annotations, as_resource, git_resolver, config_field_timeout,
  annotation_key_commit_hash,
}
use resolution.Git.Fetch.{Fetched, worker-git}
use resolution.Samples.{open_request, listing, split_key}

abbrev opened : String → String → Result Error Bytes
opened path w = if path == "a.yaml" then ok (97 ∷ 58 ∷ []) else err (plain "file does not exist")

-- A library whose every repository has one file, and the head "c0ffee".
abbrev pub one_file : GitLibrary CloneOptions String String Bytes
one_file = record {
  branch_reference_name = λ b. append "refs/heads/" b;
  clone = λ options. ok options;
  head = λ repository. ok "c0ffee";
  hash_string = λ h. h;
  new_hash = λ s. s;
  worktree = λ repository. ok "";
  checkout = λ h w. ok h;
  open_file = opened;
  read_all = λ f. ok f;
}

abbrev file_params : GoMap
file_params = some (("url", "https://example.com/r") ∷ ("path", "a.yaml") ∷ ("branch", "main") ∷ [])

abbrev file : ResolvedGitResource
file = record { commit = "c0ffee"; content = 97 ∷ 58 ∷ [] }

abbrev file_request : ResolutionRequest
file_request = record open_request { spec = record { parameters = file_params } }

abbrev parse_five : String → Result Error ℤ
parse_five s = if s == "5s" then ok (pos 5_000_000_000) else err (plain "invalid duration")

abbrev configuration : GoMap
configuration = some ((config_field_timeout, "5s") ∷ [])

abbrev configured : Reconciler
configured = record {
  resolver = git_resolver one_file parse_five;
  lister = listing file_request;
  config_store = some (record { loaded = some configuration });
}

worker-git_example :
    (r : ResolvedGitResource) × Fetched one_file file_request.spec.parameters r
    × ((97 ∷ 58 ∷ []) ≡ r.content)
    × (find annotation_key_commit_hash (git_annotations file) ≡ some r.commit)
    × ((index url_param file_params ≢ "")
        × (index path_param file_params ≢ "")
        × ((index commit_param file_params ≡ "") ⊎ (index branch_param file_params ≡ "")))
unfolding worker resolve validate_params
worker-git_example =
    worker-git one_file parse_five [] "team/job" file_request (as_resource file) refl

missing_both : validate_params none ≡ some (plain "missing url, path")
unfolding validate_params
missing_both = refl

no_file :
    resolve one_file (some (("url", "u") ∷ ("path", "b.yaml") ∷ []))
    ≡ err (plain "error opening file \"b.yaml\": file does not exist")
unfolding resolve quote message
no_file = refl

-- A fetch that would take six seconds.
reconcile-fetch_timeout_example :
    (new : ResolutionRequest) × (find_stored batch memory file_request
        (reconcile batch memory split_key configured
          (context_ends deadline_exceeded)
          []
          "team/job"
          (some file_request)).1
      ≡ some new)
    × (get_condition batch new.status
        ≡ some (succeeded condition_false reason_resolution_failed "context deadline exceeded"))
    × (new.status.fields ≡ file_request.status.fields)
unfolding is_done timeout_duration get_resolution_timeout request_ctx value get_resolver_config
    inject_resolver_config get_config
reconcile-fetch_timeout_example =
    reconcile-fetch_timeout one_file parse_five configured (record { loaded = some configuration })
      configuration "team" [] refl refl refl batch memory split_key (context_ends deadline_exceeded)
      "team/job" "job" file_request file_request (some file_request) (some 6_000_000_000) "5s"
      (pos 5_000_000_000) refl refl refl refl refl refl
      (λ t e h. too_late (subst (λ x. pos x ≤ℤ pos 5_000_000_000) (ap or_zero (sym e)) h))
      (deadline_reached
        (λ t e. subst (λ x. pos 5_000_000_000 ≤ℤ pos x) (ap or_zero e) (omega arith)))
      refl refl (_, refl)
  where
    or_zero : Option ℕ → ℕ
    or_zero none = 0
    or_zero (some t) = t

    too_late : pos 6_000_000_000 ≤ℤ pos 5_000_000_000 → ⊥
    too_late h = omega arith

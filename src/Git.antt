-- ===== src/Git.antt =====
-- gitresolver/pkg/git: the resolver that fetches a file from a git repository (resolver.go, params.go,
-- config.go, annotations.go), over an interface for go-git.
pub mod Params
pub mod Fetch
pub mod Timeout
pub mod Tests
use Prim.Native.String.{◌++◌}
use resolution.Prelude.{
  String, Bool, true, false, not, ◌&&◌, Option, none, some, List, [], ◌∷◌, GoMap, find, index,
  is_nil, Result, ok, err, ◌>>=◌, map_err, ◌==◌, if◌then◌else◌, quote,
}
use resolution.Prelude.Int.{ℤ}
use resolution.Common.{label_key_resolver_type, annotation_key_content_type}
use resolution.Common.Errors.{Error, plain, wrapped, message}
use resolution.Common.Context.{Ctx, get_resolver_config}
use resolution.Api.{Bytes}
use resolution.Framework.{ResolvedResource, Resolver}

abbrev pub url_param : String
url_param = "url"

abbrev pub path_param : String
path_param = "path"

abbrev pub commit_param : String
commit_param = "commit"

abbrev pub branch_param : String
branch_param = "branch"

abbrev pub config_field_timeout : String
config_field_timeout = "fetch-timeout"

abbrev pub annotation_key_commit_hash : String
annotation_key_commit_hash = "commit"

abbrev yaml_content_type : String
yaml_content_type = "application/x-yaml"

-- git.CloneOptions: the fields that the resolver sets
pub record CloneOptions : Type 0 where
  pub url : String
  pub single_branch : Bool
  pub reference_name : String

-- go-git and memfs: repositories R, worktrees W, which hold the files, hashes H and open files F.
pub record GitLibrary (R W H F : Type 0) : Type 0 where
  pub branch_reference_name : String → String
  pub clone : CloneOptions → Result Error R
  pub head : R → Result Error H
  pub hash_string : H → String
  pub new_hash : String → H
  pub worktree : R → Result Error W
  pub checkout : H → W → Result Error W
  pub open_file : String → W → Result Error F
  pub read_all : F → Result Error Bytes

-- ResolvedGitResource
pub record ResolvedGitResource : Type 0 where
  pub commit : String
  pub content : Bytes

-- Its Annotations
unfoldable pub git_annotations : ResolvedGitResource → GoMap
git_annotations r =
    some (
      (annotation_key_commit_hash, r.commit)
      ∷ (annotation_key_content_type, yaml_content_type)
      ∷ [])

-- `v, has := params[p]`, and that it is there and not empty
is_given : Option String → Bool
is_given none = false
is_given (some v) = not (v == "")

-- The loop over the required parameters.
absent : List String → GoMap → List String
unfolding is_given
absent [] params = []
absent (p ∷ ps) params =
    let rest = absent ps params in if is_given (find p params) then rest else p ∷ rest

abbrev required : List String
required = url_param ∷ path_param ∷ []

missing : GoMap → List String
unfolding absent
missing none = required
missing (some m) = absent required (some m)

-- strings.Join(parts, ", ")
join : List String → String
join [] = ""
join (s ∷ []) = s
join (s ∷ t ∷ ss) = s ++ (", " ++ join (t ∷ ss))

-- ValidateParams
unfoldable pub validate_params : GoMap → Option Error
unfolding missing join
validate_params params =
    if not (is_nil (missing params))
    then some (plain ("missing " ++ join (missing params)))
    else if not (index commit_param params == "") && not (index branch_param params == "")
    then some (plain ("supplied both " ++ (quote commit_param ++ (" and " ++ quote branch_param))))
    else none

-- fmt.Errorf(prefix + "%v", err)
abbrev flat : String → Error → Error
flat prefix e = plain (prefix ++ message e)

module _ {R W H F : Type 0} (g : GitLibrary R W H F) where
  -- The options of a clone: a branch that is given is the only one that is fetched.
  unfoldable pub clone_options : GoMap → CloneOptions
  clone_options params =
      if index branch_param params == ""
      then record { url = index url_param params; single_branch = false; reference_name = "" }
      else record {
        url = index url_param params;
        single_branch = true;
        reference_name = g.branch_reference_name (index branch_param params);
      }

  head_commit : R → Result Error String
  head_commit repository = do
    hash ← map_err (wrapped "error reading repository HEAD value: ") (g.head repository)
    ok (g.hash_string hash)

  -- The commit that is checked out: the one asked for, or the head of what was cloned.
  unfoldable pub commit_of : GoMap → R → Result Error String
  unfolding head_commit
  commit_of params repository =
      if index commit_param params == ""
      then head_commit repository
      else ok (index commit_param params)

  -- Resolve
  unfoldable pub resolve : GoMap → Result Error ResolvedGitResource
  unfolding commit_of clone_options
  resolve params = do
    repository ← map_err (wrapped "clone error: ") (g.clone (clone_options params))
    commit ← commit_of params repository
    w ← map_err (flat "worktree error: ") (g.worktree repository)
    files ← map_err (flat "checkout error: ") (g.checkout (g.new_hash commit) w)
    f ←
        map_err (flat ("error opening file " ++ (quote (index path_param params) ++ ": ")))
          (g.open_file (index path_param params) files)
    content ←
        map_err (flat ("error reading file " ++ (quote (index path_param params) ++ ": ")))
          (g.read_all f)
    ok (record { commit = commit; content = content })

abbrev as_resource : ResolvedGitResource → ResolvedResource
as_resource r = record { content = r.content; annotations = git_annotations r }

abbrev or_default : ℤ → Result Error ℤ → ℤ
or_default d (ok t) = t
or_default d (err e) = d

-- GetResolutionTimeout, where `parse` is time.ParseDuration
unfoldable pub get_resolution_timeout : (String → Result Error ℤ) → Ctx → ℤ → ℤ
get_resolution_timeout parse ctx default_timeout =
    elim (find config_field_timeout (get_resolver_config ctx)) [
      | none ↦ default_timeout
      | some s ↦ or_default default_timeout (parse s)
    ]

abbrev pub answer : Result Error ResolvedGitResource → Result Error ResolvedResource
answer (ok r) = ok (as_resource r)
answer (err e) = err e

-- The resolver, as the framework takes it.
module _ {R W H F : Type 0} (g : GitLibrary R W H F) (parse : String → Result Error ℤ) where
  abbrev pub git_resolver : Resolver
  git_resolver = record {
    get_name = λ ctx. "Git";
    get_selector = λ ctx. some ((label_key_resolver_type, "git") ∷ []);
    validate_params = λ ctx params. validate_params params;
    resolve = λ ctx params. answer (resolve g params);
    get_resolution_timeout = some (get_resolution_timeout parse);
    get_config_name = some (λ ctx. "git-resolver-config");
  }

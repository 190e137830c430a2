-- ===== src/Git/Params.antt =====
-- Which parameters the git resolver takes.
use resolution.Prelude.{
  String, ◌≡◌, ◌≢◌, ◌↔◌, ◌⊎◌, refl, true, Option, none, some, GoMap, find, index, or_empty, eq_iff,
  arith, is_nil,
}
use resolution.Git.{
  url_param, path_param, commit_param, branch_param, is_given, absent, missing, validate_params,
}

is_given_iff : (o : Option String) → (is_given o ≡ true) ↔ (or_empty o ≢ "")
unfolding is_given
is_given_iff none = (λ h. cc, λ h. absurd (h refl))
is_given_iff (some v) = ground (arith, eq_iff v "")

missing_iff :
    (params : GoMap)
    → (is_nil (missing params) ≡ true)
      ↔ ((index url_param params ≢ "") × (index path_param params ≢ ""))
unfolding missing absent
missing_iff none = (λ h. cc, λ h. absurd (h.0 refl))
missing_iff (some m) =
    ground (arith, is_given_iff (find url_param (some m)), is_given_iff (find path_param (some m)))

-- Parameters are valid exactly when there are a url and a path, and not both a commit and a branch.
pub validate_params_iff :
    (params : GoMap)
    → (validate_params params ≡ none)
      ↔ (index url_param params ≢ "")
        × (index path_param params ≢ "")
        × ((index commit_param params ≡ "") ⊎ (index branch_param params ≡ ""))
unfolding validate_params
validate_params_iff params = ground (
  arith,
  missing_iff params,
  eq_iff (index commit_param params) "",
  eq_iff (index branch_param params) "",
)

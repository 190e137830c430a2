-- ===== src/Lister.antt =====
-- pkg/client/listers/resolution/v1alpha1/resolutionrequest.go: the lister that the controllers and the
-- requester read, over an interface for the indexer of client-go.
pub mod Promotion
mod Tests
use Prim.Native.String.{◌++◌}
use resolution.Prelude.{String, ◌≡◌, Option, none, some, List, [], ◌∷◌, Result, ok, err, quote}
use resolution.Common.Errors.{Error, api, not_found}
use resolution.Api.{ResolutionRequest}
use resolution.Framework.{key_of}

-- Every member of a list has a property.
abbrev pub Every {ℓ κ} : {A : Type ℓ} → (A → Type κ) → List A → Type κ
Every P [] = Unit
Every P (x ∷ xs) = P x × Every P xs

-- cache.Indexer and the two functions that list it; S are the label selectors.
pub record Indexer (S : Type 0) : Type 0 where
  pub everything : S
  pub list_all : S → List ResolutionRequest × Option Error
  pub list_all_by_namespace : String → S → List ResolutionRequest × Option Error
  pub get_by_key : String → Result Error (Option ResolutionRequest)
  -- What is listed is indexed under its key.
  pub listed-key : (s : S) → Every (λ rr. get_by_key (key_of rr) ≡ ok (some rr)) (list_all s).0

-- errors.NewNotFound of the resource and the name
abbrev pub new_not_found : String → Error
new_not_found name =
    api not_found ("resolutionrequest.resolution.tekton.dev " ++ (quote name ++ " not found"))

module _ {S : Type 0} (ix : Indexer S) where
  -- resolutionRequestLister.List
  unfoldable pub list : S → List ResolutionRequest × Option Error
  list selector = ix.list_all selector

  -- resolutionRequestNamespaceLister.List
  unfoldable pub list_in : String → S → List ResolutionRequest × Option Error
  list_in namespace selector = ix.list_all_by_namespace namespace selector

  -- ResolutionRequests(namespace).Get(name)
  unfoldable pub get : String → String → Result Error ResolutionRequest
  get namespace name = elim (ix.get_by_key (namespace ++ ("/" ++ name))) [
    | err e ↦ err e
    | ok o ↦ elim o [ none ↦ err (new_not_found name) | some rr ↦ ok rr ]
  ]

-- ===== src/Lister/Promotion.antt =====
-- A promoted leader enqueues what its lister has.
use resolution.Prelude.{String, ◌≡◌, refl, Option, none, some, List, [], ◌∷◌, map, Result, ok, err}
use resolution.Common.Errors.{Error}
use resolution.Api.{ResolutionRequest}
use resolution.Framework.{key_of}
use resolution.Framework.Setup.{promote}
use resolution.Lister.{Every, Indexer, list, get}

-- `all, err := lister.List(labels.Everything())`, and its test for an error
abbrev pub checked : List ResolutionRequest × Option Error → Result Error (List ResolutionRequest)
checked (all, none) = ok all
checked (all, some e) = err e

module _ {S : Type 0} (ix : Indexer S) where
  -- The lister has a request under a namespace and a name.
  abbrev Has : String × String → Type 0
  Has (ns, name) =
      (rr : ResolutionRequest) × (get ix ns name ≡ ok rr)
      × (rr.object_meta.namespace ≡ ns)
      × (rr.object_meta.name ≡ name)

  indexed :
      (rr : ResolutionRequest)
      → ix.get_by_key (key_of rr) ≡ ok (some rr)
      → get ix rr.object_meta.namespace rr.object_meta.name ≡ ok rr
  unfolding get
  indexed rr h = rw (h, get)

  all_indexed :
      (all : List ResolutionRequest)
      → Every (λ rr. ix.get_by_key (key_of rr) ≡ ok (some rr)) all
      → Every Has (map (λ rr. (rr.object_meta.namespace, rr.object_meta.name)) all)
  all_indexed [] h = tt
  all_indexed (rr ∷ all) h = ((rr, indexed rr h.0, refl, refl), all_indexed all h.1)

  promoted :
      (x : List ResolutionRequest × Option Error)
      → Every (λ rr. ix.get_by_key (key_of rr) ≡ ok (some rr)) x.0
      → Every Has (promote (checked x)).1
  unfolding promote
  promoted (all, none) h = all_indexed all h
  promoted (all, some e) h = tt

  -- Every key that a resolver's promoted leader enqueues, from the lister's list of everything, is
  -- that of a request that the lister gets under it.
  promote-listed : Every Has (promote (checked (list ix ix.everything))).1
  unfolding list
  promote-listed = promoted (ix.list_all ix.everything) (ix.listed-key ix.everything)

-- ===== src/Lister/Tests.antt =====
-- An index of one request.
use resolution.Prelude.{String, ◌≡◌, refl, none, some, [], ◌∷◌, ok, err, ◌==◌, if◌then◌else◌}
use resolution.Lister.{Indexer, get, new_not_found}
use resolution.Samples.{open_request}

abbrev one_request : Indexer String
one_request = record {
  everything = "";
  list_all = λ s. (open_request ∷ [], none);
  list_all_by_namespace = λ ns s. (if ns == "team" then open_request ∷ [] else [], none);
  get_by_key = λ key. ok (if key == "team/job" then some open_request else none);
  listed-key = λ s. (refl, tt);
}

absent : get one_request "team" "other" ≡ err (new_not_found "other")
unfolding get
absent = refl

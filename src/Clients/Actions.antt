-- ===== src/Clients/Actions.antt =====
-- What the fake client's actions are about.
use resolution.Prelude.{String, Bool, ◌≡◌, refl, GoMap, Option, none, some, List, [], ◌∷◌}
use resolution.Common.Errors.{Error}
use resolution.Api.{ResolutionRequest}
use resolution.Clients.{
  ListOptions, Method, Target, Verb, http_get, http_post, http_put, http_patch, http_delete, target,
  list, get, create, update, update_status, delete, delete_collection, patch, watch,
}
use resolution.Clients.Fake.{
  Action, get_action, list_action, watch_action, delete_collection_action, create_action,
  update_action, update_subresource_action, delete_action, patch_action, RequestList, run,
  object_or_nil, list_or_nil, watch_or_nil, only_error,
}
use resolution.Clients.Typed.{request}
use resolution.Clients.Typed as Typed

abbrev about : String → Verb → Option String → List String → Target
about ns verb name subresources = record {
  verb = verb;
  namespace = ns;
  name = name;
  subresources = subresources;
}

-- What an action stands for on a server
abbrev action_target : {O : Type 0} → Action O → Target
action_target (get_action ns name) = about ns http_get (some name) []
action_target (list_action ns opts) = about ns http_get none []
action_target (watch_action ns opts) = about ns http_get none []
action_target (delete_collection_action ns opts) = about ns http_delete none []
action_target (create_action ns rr) = about ns http_post none []
action_target (update_action ns rr) = about ns http_put (some rr.object_meta.name) []
action_target (update_subresource_action subresource ns rr) =
    about ns http_put (some rr.object_meta.name) (subresource ∷ [])
action_target (delete_action ns name opts) = about ns http_delete (some name) []
action_target (patch_action ns name patch_type doc subresources) =
    about ns http_patch (some name) subresources

module _ {O M W : Type 0} (answer : Action O → Option ResolutionRequest × Option Error)
    (answer_list : Action O → Option (RequestList M) × Option Error)
    (answer_watch : Action O → Option W × Option Error)
    (label_of : ListOptions O → Option (GoMap → Bool)) (ns : String) where
  -- A testing.Fake that notes what its actions are about
  abbrev pub noting : {A : Type 0} → (Action O → A) → Action O → List Target → A × List Target
  noting answers act acted = (answers act, action_target act ∷ acted)

  -- What the fake client's actions are about, during a method
  unfoldable pub acted : Method O → List Target
  unfolding run
  acted m = (run (noting answer) (noting answer_list) (noting answer_watch) label_of ns m []).1

  module _ (ts : List Target) where
    object_state :
        (x : Option ResolutionRequest × Option Error)
        → (object_or_nil
            (noting answer)
            (noting answer_list)
            (noting answer_watch)
            label_of
            ns
            (x, ts)).1
          ≡ ts
    object_state (none, e) = refl
    object_state (some obj, e) = refl

    list_state :
        (opts : ListOptions O) (x : Option (RequestList M) × Option Error)
        → (list_or_nil
            (noting answer)
            (noting answer_list)
            (noting answer_watch)
            label_of
            ns
            opts
            (x, ts)).1
          ≡ ts
    unfolding list_or_nil
    list_state opts (none, e) = refl
    list_state opts (some obj, e) = refl

    watch_state :
        (x : Option W × Option Error)
        → (watch_or_nil
            (noting answer)
            (noting answer_list)
            (noting answer_watch)
            label_of
            ns
            (x, ts)).1
          ≡ ts
    watch_state (none, e) = refl
    watch_state (some w, e) = refl

    error_state :
        {A : Type 0} (x : Option A × Option Error)
        → (only_error
            (noting answer)
            (noting answer_list)
            (noting answer_watch)
            label_of
            ns
            (x, ts)).1
          ≡ ts
    error_state (obj, e) = refl

  -- The fake client's action is about the same as the typed client's request, for every method.
  acted-request : (m : Method O) → acted m ≡ target (request ns m) ∷ []
  unfolding acted run request Typed.create Typed.update Typed.update_status Typed.delete
      Typed.delete_collection Typed.get Typed.list Typed.patch Typed.watch
  acted-request (create rr opts) = object_state _ _
  acted-request (update rr opts) = object_state _ _
  acted-request (update_status rr opts) = object_state _ _
  acted-request (delete name opts) = error_state _ (answer (delete_action ns name opts))
  acted-request (delete_collection opts list_opts) =
      error_state _ (answer_list (delete_collection_action ns list_opts))
  acted-request (get name opts) = object_state _ _
  acted-request (list opts) = list_state _ opts _
  acted-request (watch opts) = watch_state _ _
  acted-request (patch name patch_type doc opts subresources) = object_state _ _

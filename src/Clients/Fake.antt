-- ===== src/Clients/Fake.antt =====
-- clientset/versioned/typed/resolution/v1alpha1/fake/fake_resolutionrequest.go: the client of tests. Each
-- of its methods is one action of client-go's testing.Fake, which is a parameter.
use resolution.Prelude.{String, Bool, true, if◌then◌else◌, GoMap, Option, none, some, List, [], ◌∷◌}
use resolution.Common.Errors.{Error}
use resolution.Api.{ResolutionRequest}
use resolution.Cluster.{Json}
use resolution.Clients.{ListOptions, Method}
use resolution.Clients as Clients

-- What testing.New…Action makes, for the resource "resolutionrequests"
pub data Action (O : Type 0) : Type 0 where
  get_action : String → String → Action O
  list_action watch_action delete_collection_action : String → ListOptions O → Action O
  create_action update_action : String → ResolutionRequest → Action O
  -- The subresource comes first.
  update_subresource_action : String → String → ResolutionRequest → Action O
  delete_action : String → String → O → Action O
  patch_action : String → String → String → Json → List String → Action O

-- ResolutionRequestList, with `M` for its ListMeta
pub record RequestList (M : Type 0) : Type 0 where
  pub list_meta : M
  pub items : List ResolutionRequest

-- Invokes gives an object or nil, and an error or nil; so do the methods.
-- What a method returns: an object, a list, a watch, or nil
pub data Found (M W : Type 0) : Type 0 where
  nil : Found M W
  object : ResolutionRequest → Found M W
  list : RequestList M → Found M W
  watching : W → Found M W

-- Invokes gives an object or nil, and an error or nil, whatever the type; InvokesWatch alike.
module _ {O M W C : Type 0} (invokes : Action O → C → (Option ResolutionRequest × Option Error) × C)
    (invokes_list : Action O → C → (Option (RequestList M) × Option Error) × C)
    (invokes_watch : Action O → C → (Option W × Option Error) × C)
    (label_of : ListOptions O → Option (GoMap → Bool)) (ns : String) where
  -- The loop of List
  unfoldable pub matching : (GoMap → Bool) → List ResolutionRequest → List ResolutionRequest
  matching label [] = []
  matching label (item ∷ items) =
      let rest = matching label items in if label item.object_meta.labels then item ∷ rest else rest

  -- `if label == nil { label = labels.Everything() }`
  abbrev or_everything : Option (GoMap → Bool) → GoMap → Bool
  or_everything none labels = true
  or_everything (some label) labels = label labels

  -- `if obj == nil { return nil, err }`
  abbrev pub object_or_nil :
      (Option ResolutionRequest × Option Error) × C → (Found M W × Option Error) × C
  object_or_nil ((none, e), c) = ((nil, e), c)
  object_or_nil ((some obj, e), c) = ((object obj, e), c)

  unfoldable pub list_or_nil :
      ListOptions O → (Option (RequestList M) × Option Error) × C → (Found M W × Option Error) × C
  unfolding matching
  list_or_nil opts ((none, e), c) = ((nil, e), c)
  list_or_nil opts ((some obj, e), c) =
      ((list (record obj { items = matching (or_everything (label_of opts)) obj.items }), e), c)

  abbrev pub watch_or_nil : (Option W × Option Error) × C → (Found M W × Option Error) × C
  watch_or_nil ((none, e), c) = ((nil, e), c)
  watch_or_nil ((some w, e), c) = ((watching w, e), c)

  -- Delete and DeleteCollection return the error alone.
  abbrev pub only_error :
      {A : Type 0} → (Option A × Option Error) × C → (Found M W × Option Error) × C
  only_error ((obj, e), c) = ((nil, e), c)

  unfoldable pub run : Method O → C → (Found M W × Option Error) × C
  unfolding matching list_or_nil
  run (Clients.get name opts) c = object_or_nil (invokes (get_action ns name) c)
  run (Clients.list opts) c = list_or_nil opts (invokes_list (list_action ns opts) c)
  run (Clients.watch opts) c = watch_or_nil (invokes_watch (watch_action ns opts) c)
  run (Clients.create rr opts) c = object_or_nil (invokes (create_action ns rr) c)
  run (Clients.update rr opts) c = object_or_nil (invokes (update_action ns rr) c)
  run (Clients.update_status rr opts) c =
      object_or_nil (invokes (update_subresource_action "status" ns rr) c)
  run (Clients.delete name opts) c = only_error (invokes (delete_action ns name opts) c)
  run (Clients.delete_collection opts list_opts) c =
      only_error (invokes_list (delete_collection_action ns list_opts) c)
  run (Clients.patch name patch_type doc opts subresources) c =
      object_or_nil (invokes (patch_action ns name patch_type doc subresources) c)

-- ===== src/Injection/Wrapped.antt =====
-- The wrappers of informers/resolution/v1alpha1/resolutionrequest/resolutionrequest.go and of
-- filtered/resolutionrequest.go: listers that ask a client, not a cache.
use resolution.Prelude.{String, ◌≡◌, refl, List, [], ◌∷◌, Result, ok, err}
use resolution.Common.Errors.{Error}
use resolution.Api.{ResolutionRequest}
use resolution.Injection.{Wrapper, FilteredWrapper}
use resolution.Lister.{Every}

-- v1.ListOptions, as the wrappers fill it
pub record ListOptions : Type 0 where
  pub label_selector : String
  pub resource_version : String

-- The methods of a client that the wrappers call; `K` is the type of clients, `C` the server's state.
-- The options of Get are its resource version.
pub record RequestsClient (K C : Type 0) : Type 0 where
  pub list : K → String → ListOptions → C → Result Error (List ResolutionRequest) × C
  pub get : K → String → String → String → C → Result Error ResolutionRequest × C

-- labels.Selector, of which `Q` are the requirements
pub record Selectors (S Q : Type 0) : Type 0 where
  pub to_text : S → String
  pub parse_to_requirements : String → Result Error (List Q)
  pub add : S → List Q → S

module _ {K : Type 0} where
  -- ResolutionRequests and SetResourceVersion of the one
  unfoldable pub requests_in : String → Wrapper K → Wrapper K
  requests_in namespace w = record w { namespace = namespace }

  unfoldable pub set_resource_version : String → Wrapper K → Wrapper K
  set_resource_version resource_version w = record w { resource_version = resource_version }

  -- ResolutionRequests of the other
  unfoldable pub filtered_requests_in : String → FilteredWrapper K → FilteredWrapper K
  filtered_requests_in namespace w = record w { namespace = namespace }

module _ {K C S Q : Type 0} (kc : RequestsClient K C) (ls : Selectors S Q) where
  unfoldable pub list : Wrapper K → S → C → Result Error (List ResolutionRequest) × C
  list w selector c =
      kc.list w.client w.namespace
        (record { label_selector = ls.to_text selector; resource_version = w.resource_version }) c

  unfoldable pub get : Wrapper K → String → C → Result Error ResolutionRequest × C
  get w name c = kc.get w.client w.namespace name w.resource_version c

  -- List, from the requirements on
  abbrev list_required :
      FilteredWrapper K → S → Result Error (List Q) → C → Result Error (List ResolutionRequest) × C
  list_required w selector (err e) c = (err e, c)
  list_required w selector (ok reqs) c =
      kc.list w.client w.namespace
        (record { label_selector = ls.to_text (ls.add selector reqs); resource_version = "" }) c

  unfoldable pub filtered_list :
      FilteredWrapper K → S → C → Result Error (List ResolutionRequest) × C
  filtered_list w selector c = list_required w selector (ls.parse_to_requirements w.selector) c

  unfoldable pub filtered_get : FilteredWrapper K → String → C → Result Error ResolutionRequest × C
  filtered_get w name c = kc.get w.client w.namespace name "" c

  -- Where a selector with added requirements matches no more than the selector and than the requirements
  -- do, and the server lists what matches, the filtered lister's requests match both its own selector and
  -- that of its caller.
  module _ (matches : S → ResolutionRequest → Type 0) (requires : Q → ResolutionRequest → Type 0)
      (narrows : (s : S) (qs : List Q) (rr : ResolutionRequest)
        → matches (ls.add s qs) rr
        → matches s rr × Every (λ q. requires q rr) qs)
      (lists : (k : K) (ns version : String) (s : S) (c : C) (rrs : List ResolutionRequest)
        → (kc.list k ns (record { label_selector = ls.to_text s; resource_version = version }) c).0
          ≡ ok rrs
        → Every (matches s) rrs) where
    narrowed :
        (s : S) (qs : List Q) (rrs : List ResolutionRequest)
        → Every (matches (ls.add s qs)) rrs
        → Every (λ rr. matches s rr × Every (λ q. requires q rr) qs) rrs
    narrowed s qs [] m = tt
    narrowed s qs (rr ∷ rrs) m = (narrows s qs rr m.0, narrowed s qs rrs m.1)

    required :
        (w : FilteredWrapper K) (s : S) (parsed : Result Error (List Q)) (c : C)
        (rrs : List ResolutionRequest)
        → (list_required w s parsed c).0 ≡ ok rrs
        → (qs : List Q) × (parsed ≡ ok qs)
          × Every (λ rr. matches s rr × Every (λ q. requires q rr) qs) rrs
    required w s (err e) c rrs h = absurd cc
    required w s (ok qs) c rrs h =
        (qs, refl, narrowed s qs rrs (lists w.client w.namespace "" (ls.add s qs) c rrs h))

    filtered_list-matches :
        (w : FilteredWrapper K) (s : S) (c : C) (rrs : List ResolutionRequest)
        → (filtered_list w s c).0 ≡ ok rrs
        → (qs : List Q) × (ls.parse_to_requirements w.selector ≡ ok qs)
          × Every (λ rr. matches s rr × Every (λ q. requires q rr) qs) rrs
    unfolding filtered_list
    filtered_list-matches w s c rrs h = required w s (ls.parse_to_requirements w.selector) c rrs h

-- ===== src/Informers/Requests.antt =====
-- The informer of requests, and ForResource: resolution/v1alpha1/resolutionrequest.go and generic.go.
use Prim.Native.String.{◌++◌ as append}
use resolution.Prelude.{
  String, Bool, ◌&&◌, Option, none, some, List, [], ◌∷◌, Result, ok, err, ◌==◌, if◌then◌else◌,
}
use resolution.Prelude.Int.{ℤ}
use resolution.Common.Errors.{Error, plain}
use resolution.Informers.Access.{ResolutionRequestInformer, v1alpha1, resolution_requests}
use resolution.Informers.{
  Factory, ListWatch, GroupVersionResource, request_type, resolution_group, informer_for,
}

module _ {K O I : Type 0} where
  module _ (new_shared_index_informer : ListWatch K O → String → ℤ → List String → I) where
    abbrev tweaked : Option (O → O) → O → O
    tweaked none options = options
    tweaked (some tweak) options = tweak options

    -- NewFilteredResolutionRequestInformer
    unfoldable pub new_filtered_request_informer : K → String → ℤ → List String → Option (O → O) → I
    new_filtered_request_informer client namespace resync_period indexers tweak =
        new_shared_index_informer
          (record {
            list_func = λ options. record {
              client = client;
              namespace = namespace;
              options = tweaked tweak options;
            };
            watch_func = λ options. record {
              client = client;
              namespace = namespace;
              options = tweaked tweak options;
            };
          })
          request_type resync_period indexers

    -- NewResolutionRequestInformer
    unfoldable pub new_request_informer : K → String → ℤ → List String → I
    unfolding new_filtered_request_informer
    new_request_informer client namespace resync_period indexers =
        new_filtered_request_informer client namespace resync_period indexers none

    unfoldable pub default_informer : ResolutionRequestInformer O → K → ℤ → I
    unfolding new_filtered_request_informer
    default_informer f client resync_period =
        new_filtered_request_informer client f.namespace resync_period ("namespace" ∷ [])
          f.tweak_list_options

    -- Informer of resolutionRequestInformer
    unfoldable pub informer_of : ResolutionRequestInformer O → Factory K O I → I × Factory K O I
    unfolding default_informer informer_for
    informer_of r f = informer_for request_type (default_informer r) f

    -- Resolution().V1alpha1().ResolutionRequests().Informer()
    unfoldable pub request_informer : Factory K O I → I × Factory K O I
    unfolding informer_of
    request_informer f = informer_of (resolution_requests (v1alpha1 (resolution_group f))) f

    abbrev is_requests : GroupVersionResource → Bool
    is_requests r =
        (r.group == "resolution.tekton.dev")
        && (r.version == "v1alpha1")
        && (r.resource == "resolutionrequests")

    -- ForResource; `printed` is the resource in the format %v.
    unfoldable pub for_resource :
        (GroupVersionResource → String)
        → GroupVersionResource
        → Factory K O I
        → Result Error I × Factory K O I
    unfolding request_informer
    for_resource printed r f =
        if is_requests r
        then (let (informer, f') = request_informer f in (ok informer, f'))
        else (err (plain (append "no informer found for " (printed r))), f)

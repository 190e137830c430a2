-- ===== src/Lib.antt =====
-- Tekton resolution: how a remote resource is requested, resolved and read.
--
-- The program. A client (pkg/resource) submits a ResolutionRequest (pkg/apis/resolution/v1alpha1), an
-- object of the Kubernetes API, and polls it. A resolver, which is a resolver of some type run by the
-- shared framework (pkg/resolver/framework), gets the requests with its type label, resolves their
-- parameters to bytes and annotations, and patches them into the request's status, or fails the
-- request. The core controller (pkg/reconciler/resolutionrequest) completes a request whose data has
-- arrived, and fails one that is older than a minute. A webhook defaults and validates requests.
-- pkg/common has the errors, reasons and contexts that all of these use.
--
-- The modules.
--   Prelude     shared names; in its children what Go gives to the packages: formats and quoting
--               (Text), maps (Maps), fallible results (Results), 64-bit durations (Int)
--   Common      pkg/common: the constants; errors.go in Errors, context.go in Context
--   Api         pkg/apis/resolution/v1alpha1: the type; resolution_request_lifecycle.go and
--               resolution_request_defaults.go in Lifecycle, resolution_request_validation.go in
--               Validation, zz_generated.deepcopy.go in Copies
--   Knative     the condition manager and the answers to a work queue, as interfaces: knative.dev/pkg
--               is a library that is not modelled. Batch is a concrete manager.
--   Core        ReconcileKind of pkg/reconciler/resolutionrequest/resolutionrequest.go
--   Base64      encoding/base64, which writer and reader share
--   Cluster     the part of the Kubernetes API that the program calls, as an interface with what it
--               relies on as laws: names are kept, an accepted write is stored (a creation with
--               the time and the generation that the server sets), a status update
--               with a stale version is refused, and a merge patch is merged. Slot is a server with
--               room for one object, and Memory is it as an instance of the interface.
--   Framework   reconciler.go and interface.go of pkg/resolver/framework; Setup has controller.go and
--               configstore.go
--   Resource    pkg/resource: the requester (crd_resource.go) in Requester, name.go in Name, whose
--               Abstract has the maps of parameters without their order, as a quotient
--   Lister      pkg/client/listers, over an interface for the indexer
--   Git         gitresolver/pkg/git, over an interface for go-git
--   Bundle      bundleresolver/pkg/bundle and bundleresolver/cmd/bundleresolver, over an interface for
--               the registry and the tar reader
--   Demo        docs/resolver-template/cmd/demoresolver: the resolver of the documentation
--   Generated   pkg/client/injection/reconciler: the generated reconciler (reconciler.go, state.go,
--               controller.go) for any implementation of its interfaces, with finalizers and
--               events; Core and Starting are its instance for the core
--               controller (controller.go of pkg/reconciler/resolutionrequest)
--   Visit       a visit of the core controller, from its queue to the API server: the same reconciler
--               for an implementation with no optional interface. The library around it is an
--               interface, of which Retrying is a concrete one.
--   Clients     pkg/client/clientset and pkg/client/injection/client: the typed client, the fake one,
--               and the one over client-go's dynamic client; Construction is how the clients are
--               made of a rest.Config, over an interface for client-go
--   Informers   pkg/client/informers/externalversions: the factory that shares informers;
--               Access and Requests lead from it to the informer of requests
--   Injection   pkg/client/injection: the clients, factories and informers in contexts, and the listers
--               that ask a client
--   Programs    the main functions of cmd and of the resolvers; Webhook is cmd/webhook with
--               register.go of the API types. Its Admission is what the API server does with the
--               answers of knative.dev/pkg/webhook, an interface
--   System      the components together; Protocol has every interleaving of the calls that Submit and
--               the two controllers make, beside an abstract life of a request (Refines) and with
--               whole visits of the core controller in them (Deadline)
--   Samples     concrete requests and resolvers, which the Tests use
--
-- How state corresponds. A request is a record of the fields that the program reads or writes. Code that
-- mutates a request in place returns the changed one. Code that calls the API server takes the
-- server's state and returns the next one. A nil pointer or a nil error is none. An error is a value
-- of Error, which keeps the wrapping that Unwrap and ReasonError look into. A map is an association
-- list under an option, for a nil map; its list is in the order in which Go happens to visit it.
-- Instants are nanoseconds on one clock, durations are integers with the saturation of time.Sub and the
-- wrap-around of int64. The goroutine of resolve and the select that waits for it are a function from
-- what the resolver does, and the choice of the case that is heard; Framework/Selection says which
-- choices the timeout makes possible. Every loop is over a list, but for the decimal digits of a number in
-- an error's text: their fuel is the number, each step divides by ten, and more fuel changes nothing
-- (Prelude/Text).
--
-- Concurrency. A step of System/Protocol is one call of the API server by one of the parties, with the
-- object that it has read by then, so that reads and writes interleave in every order; its Rules say
-- whether, in the runs considered, a refused update is retried on a fresh copy and a client may
-- delete. Locks make each operation of the informer factory one step. A function that captures the
-- variable of a loop reads it after the loop, as the iterations share it (Injection/Filtered).
-- Pointers that are shared, which are the maps of deep copies, the factories in contexts and the
-- configurations of clients, are addresses in a store that is passed along (Api/Copies, Injection,
-- Clients/Construction).
--
-- Not modelled: vendored libraries, whose behaviour is in the interfaces above. The registrations in
-- init functions and schemes, and createRecorder, which only call those libraries. The accessors that
-- hand out a typed part of a client, and the packages named fake of the injection,
-- which wrap the fake client; the fake client set, which wraps an object tracker. The array behind a
-- slice in a deep copy is its list of elements. Manifests and scripts. Logging is left out, as nothing
-- reads it.
pub mod Prelude
pub mod Samples
pub mod Common
pub mod Api
pub mod Knative
pub mod Core
pub mod Base64
pub mod Cluster
pub mod Framework
pub mod Git
pub mod Bundle
pub mod Lister
pub mod Clients
pub mod Demo
pub mod Informers
pub mod Injection
pub mod Resource
pub mod Visit
pub mod Generated
pub mod System
pub mod Programs

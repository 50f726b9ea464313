-- ===== src/Lib.antt =====
-- The federation controller joins several Istio meshes: it exports local services to the controllers
-- of remote meshes, imports theirs, and keeps the Istio and OpenShift resources that make the imports
-- reachable and the exports exposed. This library models the logic of the controller and proves it
-- correct.
--
-- Parts. The configuration (Config) says what is exported and who the remotes are. When an exported
-- service changes (Informer), push requests (Xds) go to the discovery server and to the reconcilers.
-- The discovery server (Xds.Server) sends the encoded exports (Fds.Export) to its subscribers; a peer's
-- handler (Fds.Import) decodes them into a store (Fds.Store) and pushes requests of its own. A request
-- makes the manager (Kube.Manager) run a reconciler (Kube.Reconcilers), which generates resources from
-- the configuration, the local services and the store (Istio, Openshift) and brings the API server to
-- them (Kube.Sync). Meshes relates the two ends of a federation. Program starts the parts and joins
-- them. The controllers that a flag adds to the legacy mode (Controllers) share retried updates and
-- finalizers.
--
-- Files and code, under internal/pkg unless said otherwise:
--   Config              config/federation_config.go: the structs and their methods
--   Config/Parse        config/parse.go: ParseArgs, unmarshalJSON
--   Config/Cluster      config/cluster.go: PodNamespace; Federation.Namespace
--   Config/Peers        what AnyRemotePeerWithOpenshiftRouterIngress computes
--   Xds                 legacy/xds: type URLs, PushRequest
--   Xds/Server          legacy/xds/adss/adss_handler.go: adsServer and its methods
--   Xds/Server/Recv     recvFromStream and DeltaAggregatedResources of the same file
--   Xds/Server/Steps    the server's goroutines in any order, as a step relation
--   Xds/Server/Abstract the server as its clients see it: which streams are subscribed
--   Xds/Server/Run      legacy/xds/adss/grpc_server.go: NewServer, Run
--   Xds/Client          legacy/xds/adsc/adsc.go: Run, Restart, Send, handleRecv
--   Xds/Client/Life     the client's goroutine and timers, step by step, until the context is done
--   Xds/Client/Dial     New and dial of the same file
--   Fds                 FederatedService, ServicePort of internal/api/federation/v1alpha1
--   Fds/Protocol        detectProtocol of legacy/fds/exported_service_generator.go
--   Fds/Export          GenerateResponse and serialize of the same file
--   Fds/Store           legacy/fds/imported_service_store.go
--   Fds/Import          legacy/fds/import_handler.go
--   Kubernetes          services and listers, and the loop over export rules of four functions
--   Networking          networking/resolve.go
--   Istio               istio/config_factory.go: ConfigFactory and the parts of Istio's types it sets
--   Istio/Names         routerCompatibleSNI, makePortsMap, separateWithDash, getServiceNameAndNs
--   Istio/Gateway, Istio/Filters, Istio/DestinationRules, Istio/ServiceEntries, Istio/WorkloadEntries
--                       IngressGateway, EnvoyFilters, DestinationRules, ServiceEntries, WorkloadEntries
--   Openshift           openshift/config_factory.go: Routes
--   Kube/Api            the typed clients of the API server, a parameter, and what is documented of them
--   Kube/Sync           the body shared by five files legacy/kube/*_reconciler.go
--   Kube/Reconcilers    the seven Reconcile methods
--   Kube/Manager        legacy/kube/reconciler_manager.go
--   Informer            legacy/informer/service_export_event_handler.go, common/match_exported.go
--   Informer/Controller legacy/informer/resource_controller.go: the callbacks, the queue, the worker
--   Informer/Controller/Life    NewResourceController, RunAndWait, Run of the same file
--   Program/Resolution  resolveRemoteIP of cmd/federation-controller/main.go
--   Program/Reconcilers startReconciler of the same file
--   Program/Clients     startFederationServer, startFDSClient, runLegacyMode of the same file
--   Program/Startup     the calls for clients and caches that may end the process, of the same file
--   Program/Main        parseFlags, main, runCtrls of the same file
--   Program/System      what runLegacyMode leaves running around meshConfigPushRequests
--   Controllers/Retry   internal/controller/retry.go
--   Controllers/Finalizer       internal/controller/finalizer/types.go
--   Controllers/MeshFederation  api/v1alpha1/meshfederation_types.go, and Reconcile of
--                       internal/controller/meshfederation/meshfederation_controller.go
--   Controllers/Predicate       internal/controller/predicate.go, and the filter of SetupWithManager
--   Controllers/FederatedService  api/v1alpha1/federatedservice_types.go, and Reconcile of
--                       internal/controller/federatedservice/federatedservice_controller.go
--   Meshes              statements on two meshes, and the client of a remote as startFDSClient of
--                       cmd/federation-controller/main.go configures it
--   Common              Go's strings, errors, maps and number formats as the code uses them
--   Examples            concrete meshes on which the definitions are run
--
-- Correspondence. A function that may panic has its result in Outcome, one that returns an error in
-- Result, and one that changes state returns the new state. A text is the list of its ASCII codes. A
-- map is an association list; where the code ranges over one, the order of the visits is a parameter.
-- Numbers are natural numbers with the wrap-around of uint32 and uint64 written out, and int32 is a
-- signed number. What comes from outside the repository is a parameter: the JSON decoder, protobuf,
-- the listers and clients of Kubernetes, the resolver, the label matcher, Istio's map helpers, the
-- streams of gRPC, the environment and the clock, client-go's work queue and retries, controllerutil.
-- What theorems rely on is stated as a named hypothesis: Fds.RoundTrips, Kube.Api.Documented,
-- Kube.Sync.Maps.Visits, GivesValues, VisitsSubscribers, GivesOnlyValues, VisitsReconcilers, KindsApart,
-- WorkloadsApart, Xds.Client.Life.Ends.IsDone, Controllers.Predicate.Documented,
-- Controllers.Retry.Retries, Controllers.Retry.Kept.Versioned, KeepsIdentity,
-- Controllers.Finalizer.Outcomes.Documented. What a handler of events sends is taken as received. What
-- the library calls of the legacy mode return may depend on the manager beside it, whose failed start
-- cancels the context that they share.
--
-- Bounds. Every loop is structural recursion on the list that the code ranges over. Decimal digits are
-- written with fuel, the number and one more, since a number has no more digits than that. The unending
-- loops over channels and streams are functions of the sequence of what arrives, and the client's and
-- the worker's goroutines of the sequence of what each of their steps finds. Mutexes make each
-- method one step.
--
-- Not modelled: how long delays are; what library clients and loggers are made with; the calls that
-- register controllers and schemes; generated code, which are the deep copies of the API types and the
-- methods of the protobuf messages; log messages; the kind and API version of an apply; the arguments
-- that a format verb puts into an error's text.
pub mod Common
pub mod Config
pub mod Xds
pub mod Kubernetes
pub mod Networking
pub mod Fds
pub mod Istio
pub mod Openshift
pub mod Meshes
pub mod Kube
pub mod Informer
pub mod Program
pub mod Controllers
pub mod Examples

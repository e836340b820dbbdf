-- ===== src/Lib.antt =====
-- Naavik reads workloads, dependencies and traffic configurations from many Kubernetes clusters,
-- keeps them in caches, and writes virtual services and rate limits to the clusters of the clients
-- of an application.
--
-- The parts and their files:
--   * Options: the settings (cmd/options/options.go, defaults.go). The global `Params` is an argument;
--     the flags of cmd/root.go set it, and `InitializeNaavikArgs` in tests.
--     Go's regular expressions are a parameter, the function from a pattern to what it matches.
--   * Meta, TrafficUtil: what is read from an object's metadata (pkg/utils). Resources holds the
--     objects by the fields that the program uses.
--   * Set: pkg/types/set. Common has the texts, the tables for Go's maps, and internal/types/common.go.
--   * Cache: internal/cache, a file for each cache. Nested is the store of nested maps that the
--     deployment, rollout and service caches repeat; their operations are its operations at the keys
--     that they compute. A cache is a value, and an operation a function of it: the locks make each
--     one step, and what readers get is equal to what is cached.
--   * Controller: internal/controller. Status has event_status.go, with a channel as what was sent
--     and whether it is closed, and a panic as `none`. Loop has `handleStatus` and the rounds of an
--     item through the queue, on fuel: `process` of an item whose statuses allow m retries needs m + 1
--     less the item's retries. Shutdown has `StopAllControllers`.
--   * Lease: internal/leasechecker, the state that says whether this replica may write.
--   * Handlers: internal/handler/k8shandler, dependency and trafficconfig/traffic_config_handler.go.
--     An operation takes the caches, an object and a status channel, and leaves the caches, the calls
--     that write to clusters, in order, the channel, and the channels of the child events that the
--     trigger creates. It calls the operations of Cache and of Controller as the code does.
--   * Events: from the events of informers, through the queues, to the handlers (controller.go, and the
--     controllers of internal/controller/k8s and admiral). Steps is the program as a step relation:
--     events come and items are processed in any order, and a handler runs as one step, on the
--     settings, the clock and the lease of that moment. What a child of a trigger reports is not read
--     back: its callback does nothing. The steps record the calls that write to clusters; Rounds makes
--     them, by Writes, and a round in which one of them panics is `none`.
--   * VirtualService: internal/handler/trafficconfig/virtual_service.go. Rules and Dials have the routes
--     and their weights, Build the object, Apply the writes to the clusters of the dependents. What
--     the Istio API answers to a read is a parameter, and the writes are recorded.
--   * RateLimits: internal/handler/trafficconfig/rate_limiting_handler.go and rate_limiting_helper.go.
--     Structs has the generic values of protobuf, Routes the patches and their routes, Loops the quotas
--     that they are built from, Create the filters of a cluster, and Handle the clusters of an
--     identity. The JSON mapping of protobuf and `time.ParseDuration` are parameters (Codec), and so
--     are the answers of the Istio API to reads; the writes are recorded.
--   * EnvoyFilters: the lists of filters in pkg/clients/clientset/istio/envoy_filter.go, by the calls
--     that they make.
--   * Writes: the calls that a handler records, run by RateLimits and VirtualService on the caches that
--     the handler leaves, with the panics that they may end in.
--   * RemoteClusters: internal/handler/remotecluster. Resolve has the way from a secret to a cluster,
--     with what the client libraries return as a parameter (Loader), Secrets the handler, Controllers
--     the start and stop of a cluster's controllers. The goroutines are steps of a relation (Steps),
--     so that a stop can begin and end between any two other operations.
--   * Server: internal/server, each handler of the API as a function to a status and a body. The
--     listings of the Istio clients are a parameter.
--   * Tests: runs on one small system.
--
-- Texts are ASCII where their case matters. Go's unordered loops over maps take the order of the
-- table, which is one that Go may choose. Settings, clock and lease stay as they are while a handler
-- runs.
--
-- Not modelled: the single calls of the Istio client, which go to its library; the matching of a
-- request with a route and the JSON of an answer, which are gin's; informers, the interleaving of
-- workers inside a handler, and start-up, which are client-go's and the system's; logging, which is
-- output only.
pub mod Cache
pub mod Common
pub mod Controller
pub mod EnvoyFilters
pub mod Events
pub mod Handlers
pub mod Lease
pub mod Meta
pub mod Options
pub mod RateLimits
pub mod RemoteClusters
pub mod Resources
pub mod Server
pub mod Set
pub mod Tests
pub mod TrafficUtil
pub mod VirtualService
pub mod Writes

-- ===== src/Lib.antt =====
-- The DCM service provider for kcli: an HTTP service that creates, lists and deletes virtual machines
-- and clusters through kweb, the web API of kcli, keeps what it made in a bbolt file, polls kweb to
-- follow the state of each resource, and publishes status events over NATS.
--
-- The parts and the files that model them:
-- - Store (internal/store/store.go): the persistent entries, the name index and the schema version.
--   Store/Entry has the entries, the errors and the interface StateStore, Store/Backend the parameters
--   for bbolt and encoding/json with the laws that stand for their documentation. A method that writes
--   takes the store's state and returns the new one (put is Put, update_status UpdateStatus, delete
--   Delete); the outcomes of commits are listed in advance in the state. Store/Laws, Store/Index,
--   Store/Listing, Store/Opening and Store/Contract are about the methods, the index, List, the schema
--   version and the contract that the clients use; Store/Memory is a store for runs.
-- - Monitor (internal/monitor/monitor.go, status.go): one poll against a store and a kweb, each behind
--   its interface. Monitor/State has the state, Monitor/Detection detectVMOrphans; vm_round and
--   cluster_round are the bodies of the loops of pollVMs and pollClusters; Monitor/Publishing has
--   publishWithDebounce, extractPending and flushPending, Monitor/Status the maps of statuses. In poll
--   the three goroutines run in sequence, at one instant. Monitor/Race lets another goroutine change
--   the store and kweb between the two listings of pollVMs; Monitor/Steps has the steps of the
--   goroutines and of requests in any order and at any instants, of which Monitor/Steps/Polls shows
--   that poll is one.
-- - Api (internal/api/server): the handlers. Api/Types has the resources and the problems, Api/Helpers
--   helpers.go and the small functions of the handlers, Api/Paging the pages of both listings,
--   Api/Server the state of StrictServerImpl, Api/Vms vm_handlers.go, Api/Clusters and Api/Kubeconfig
--   cluster_handlers.go. A handler takes the server's state and returns the response and the new
--   state, with the calls of the publisher and of the gauge that it made. Api/Paging/Client is a
--   client that lists page by page. Api/Json has UnmarshalJSON and MarshalJSON of the generated
--   ClusterSpec. Api/Vms/Race lets other requests run inside a CreateVM.
-- - Events (internal/events/publisher.go): the NATS publisher, over the connection as a parameter.
-- - Kweb (internal/kweb/client.go): Kweb/Api has the data, the errors and the interface of the client,
--   Kweb/Client the calls over a network that is a parameter and the cached health check, Kweb/Parse
--   parseResponse and parseErrorBody; Kweb/Client/Answers and Kweb/Parse/Conflict are about the errors
--   that come of an answer, and Api/Vms/Http puts CreateVM on top of this client.
-- - Metrics (internal/metrics/metrics.go): the calls that count.
-- - Registration (internal/registration/registrar.go): register is one attempt, run_loop the loop of
--   run with the timers that it starts; Registration/Retry, Registration/Backoff and
--   Registration/Status are about its end, its waits, and the flag and the gauge that it leaves.
-- - Config (internal/config/config.go): load, over the environment as a function.
-- - Paths (api/v1alpha1/paths.go): the POST paths of the OpenAPI document.
-- - Middleware (internal/handlers and the middleware of internal/metrics/metrics.go): a handler is the
--   list of its calls on the ResponseWriter; chain is the order in which the server composes them, and
--   Middleware/Strict the shape of the strict handlers of internal/api/server/server.gen.go.
-- - Assembly (cmd/dcm-kcli-provider): Assembly/Startup is NewServer, Assembly/Probe the self-probe,
--   Assembly/Endpoints the root endpoints, Assembly/Shutdown the steps of Start and of the shutdown,
--   Assembly/Process the way from the environment to the exit status, Assembly/Profiles the monitor as
--   the cache of profiles that CreateVM asks.
-- - Prelude and Text: lists, dictionaries and results, and strconv and strings as far as they are
--   used.
--
-- How they interact: the handlers and the monitor share the store and the kweb client, and both
-- publish. Store/Contract states what their theorems ask of a store, and Kweb/Api is the interface to
-- kweb.
--
-- Time is a number of nanoseconds. An int is a number below 2^64 whose upper half is negative; the
-- product of a memory size wraps at 2^64. Fuel appears in the printing of a number, where its value
-- plus one is given, in the client that walks the pages of a listing, where one unit for each result
-- is enough, and in the loop of the registration, where one unit for each attempt is enough.
--
-- Not modelled: logging, locks (each operation is atomic), histograms, the routes and the binding of
-- parameters in the generated code, the JSON methods of the generated VMSpec, the generated client,
-- the opening and the closing of the store's file, and interleavings other than those of Monitor/Race,
-- Monitor/Steps and Api/Vms/Race.
pub mod Prelude
pub mod Text
pub mod Metrics
pub mod Store
pub mod Events
pub mod Kweb
pub mod Monitor
pub mod Api
pub mod Registration
pub mod Paths
pub mod Middleware
pub mod Config
pub mod Assembly

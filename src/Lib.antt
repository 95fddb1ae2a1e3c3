-- ===== src/Lib.antt =====
-- Verification of the Stackdriver metadata agent.
--
-- The agent keeps a store of what is known of the resources of a machine (src/store.cc). Updaters
-- (src/updater.cc) poll for it and write it to the store from threads of their own; the reporter
-- (src/reporter.cc) sends the store's content to the ingestion service in batches, and then
-- removes the entries that are marked as deleted; a local HTTP server (src/api_server.cc) tells
-- which resource an id means, and whether the agent is healthy (src/health_checker.cc). The
-- machine itself is described by src/environment.cc, read by src/instance.cc, and its containers
-- are read by src/docker.cc, those of a Kubernetes cluster by src/kubernetes.cc, which polls or
-- watches the master. src/oauth2.cc gets the token that the reporter's requests are authorized
-- with, of which src/base64.cc encodes the parts. src/configuration.cc reads the options, and
-- src/metadatad.cc starts the updaters and the agent of src/agent.cc and stops them at a SIGTERM.
-- All of them use the JSON values of src/json.cc, the timers of src/time.h and the retries of
-- src/util.h.
--
-- Which file models which part:
-- - Prelude and its children: lists, integers, Boolean tests, texts as lists of bytes, std::map
--   and std::set as the sorted list of their entries, with `emplace` leaving an entry that is
--   there as it is, and operator< as an interface that numbers, pairs, sequences and resources
--   fill.
-- - Exceptions: what the code throws, as a result type; json::Exception (src/json.h) is told by
--   its cause.
-- - Json: the values of src/json.h, in a mutual block for arrays and objects; Json.Access the type
--   tests, As and Get; Json.Throws what these throw; Json.Clone the copies; Json.Serialize the
--   calls to yajl's generator; Json.Builder the JSONBuilder of src/json.cc with its stack of
--   contexts and the handlers; Json.Builder.Events the calls for a document,
--   Json.Builder.RoundTrip and Json.Parser the parse of what serialization wrote. yajl is a
--   parameter: the calls it makes for a text and whether it ends well. The numbers, `long double`
--   in the code, are an interface.
-- - Resource: src/resource.cc. Store: src/store.cc, one function for each operation, which its
--   mutex makes atomic; the threads are a sequence of changes. Store.Reads, Store.Purge,
--   Store.Invariant and Store.Times are proofs.
-- - Timer: the TimerImpl and the expiration of src/time.h, at the clock times at which the wait
--   wakes up. Retry: src/util.h. Updater: src/updater.cc, with the query's results and what the
--   timer says after each round.
-- - Reporter: SendMetadata, SendMetadataRequest and the rounds of src/reporter.cc, with the
--   server's replies as a function of the number of the request; Reporter.Loop has what other
--   threads do to the store between a report and the purge after it; Reporter.Thread SendMetadata
--   with the project, the endpoint and the header that it asks the other parts for, and the loop
--   of the thread. Reporter.Batches, Reporter.Bounds, Reporter.Destinations, Reporter.Failures,
--   Reporter.Endpoint and Reporter.Unending are proofs.
-- - Health: src/health_checker.cc. Rfc3339: printing of time stamps of src/time.cc; Rfc3339.Read
--   their reading, over the functions of the C library and its doubles; Rfc3339.Rounding and
--   Rfc3339.RoundTrip are proofs. Api: the dispatcher and the handlers of src/api_server.cc; a
--   connection is the list of what was written on it.
-- - Environment and Environment.Accessors: src/environment.cc, with its cached fields and the
--   count of requests as state, and the metadata server's replies, the files and the environment
--   variable as parameters.
-- - Stateful: code that changes a state and may throw. Instance: src/instance.cc. Docker,
--   Docker.Queries: src/docker.cc, with the daemon's replies, the parser, the clock and the
--   reading of time stamps as parameters; Docker.Failures, Docker.Outcomes and Docker.Validation
--   are proofs.
-- - Kubernetes: src/kubernetes.cc. Kubernetes itself is the reader's state, the requests to the
--   master and what the reader knows of itself; Kubernetes.Objects and Kubernetes.Owners the
--   search for a top-level controller; Kubernetes.Metadata and Kubernetes.Pods the results for
--   nodes, pods and containers; Kubernetes.Endpoints and Kubernetes.Services the caches of
--   services; Kubernetes.Query MetadataQuery; Kubernetes.Validation the dynamic validation;
--   Kubernetes.Watch WatchMaster with its events; Kubernetes.Updater the callbacks, the watch
--   threads and KubernetesUpdater. The master's replies, the connections of the watches with the
--   values that the parser finds in them, the files of the service account, the clock and the
--   reading of time stamps are parameters. Kubernetes.KindsKept, Ownership, Chains, OwnerCache,
--   Stamps, Races, LastEvents, Keeps, Live, Calm, Watching, Failing and Unhealthy are proofs.
-- - Format: Substitute of src/format.cc; Format.Pieces and Format.Ends are proofs.
-- - Base64: src/base64.cc; Base64.Digits, Base64.Bytes and Base64.RoundTrip are proofs.
-- - Oauth2: the key, the signature, the assertion and the request for a token of src/oauth2.cc,
--   over the calls of OpenSSL and the server's replies; Oauth2.Requests GetAuthHeaderValue with
--   its state; Oauth2.Cache, Oauth2.Tokens, Oauth2.Search, Oauth2.Outcomes and Oauth2.Assertion
--   are proofs.
-- - Configuration: the options of src/configuration.h and src/configuration.cc with their names
--   and defaults; Configuration.Options the accessors and the setting of an option;
--   Configuration.Arguments the configuration file and the command line, over yaml-cpp and what
--   program_options makes of the command line; Configuration.Settings and Configuration.Sources
--   are proofs.
-- - Main: src/metadatad.cc and src/agent.cc, with what the validations and the construction of the
--   API server come to as parameters; Main.Starts, Main.Startup and Main.Shutdown are proofs.
-- - Tests: the theorems at concrete inputs.
--
-- Bounds and fuel: time stamps are integers of nanoseconds without a bound, and sizes and counts
-- integers, as none of them comes near the limits of its type, but for a token's duration that a
-- server could reply. The loop of Retry has as fuel the number of calls that are allowed, which is
-- shown to be enough; the decimal digits of n have the fuel n + 1, and Substitute has a round more
-- than its format has bytes, which is shown to be enough. The inner loop of Encode has the bits as
-- fuel, of which each round takes six. The search for a controller has as fuel the depth of the
-- stack, and running out of it is the exhausted stack. The loop of a watch has fuel for its
-- rounds; one round more than the retries is shown to be enough, and without a limit of retries
-- the loop is said to run on with any fuel. The polling loop is given the rounds that it makes,
-- and is said to run on where they do not end it.
--
-- Not modelled: the sockets, threads and signals, whose effect is the order of the operations;
-- logging; the messages of exceptions;  src/http and src/asio, which adapt cpp-netlib and
-- boost::asio to local sockets.
pub mod Prelude
pub mod Exceptions
pub mod Json
pub mod Resource
pub mod Store
pub mod Timer
pub mod Retry
pub mod Updater
pub mod Reporter
pub mod Health
pub mod Rfc3339
pub mod Api
pub mod Environment
pub mod Stateful
pub mod Instance
pub mod Docker
pub mod Format
pub mod Base64
pub mod Oauth2
pub mod Configuration
pub mod Main
pub mod Kubernetes
pub mod Tests

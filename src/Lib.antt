-- ===== src/Lib.antt =====
-- The gateway for SDK events: a server that reads batches of events from devices, checks that they
-- come from a known application, gives new devices an id, and sends the batches downstream.
--
-- Parts, with the files of the repository that they model:
-- * Events and its children model src/events/input/*.rs. `SdkEventBatch`, `SdkEvent`, `SdkDevice` and
--   `SdkEnvironment` are what requests hold, `into_proto`, `event_into`, `device_into` and
--   `environment_into` their translation to messages, `properties` the flattened properties of an
--   event, and Events.Response the answer with its JSON. Events.Json is the derived `Deserialize`: how
--   a struct is read from a JSON document by the names of its fields or, from an array, by their
--   order, with defaults, required fields, and fields that stand twice.
-- * Encryption models src/encryption.rs: `encrypt` and `decrypt` with their arrays, where an index out
--   of bounds or an `unwrap` is a panic. Context models src/context.rs, which reads the headers, and
--   Context.Logging what it writes of a request to the log.
-- * AppRegistry models src/app_registry.rs: `validate`, loading from the configuration, and in
--   AppRegistry.Updates the reloads from the cluster and the loop of the thread that does them.
--   AppRegistry.Reloads has what a reload comes to for the rows that a cluster can have. The
--   start of the registry with both of its branches is in Process.Registry.
-- * IfaMatching models src/ifa_matching.rs, Bus src/bus/kafka.rs, Cors src/cors.rs, Config
--   src/config.rs, Error src/error.rs, and Metrics the counters of src/metrics.rs.
-- * Gateway models src/gateway.rs: the registration of devices in Gateway itself, the handlers and the
--   routes in Gateway.Handlers. A closure that the source passes to a future is a function here, and
--   a chain of futures is the sequence of its steps. Gateway.Races has the registrations that run at
--   the same time, each as a lookup and a storing that may be interleaved with those of others.
-- * Process models src/main.rs: Process.Start its statics, src/logger.rs and how `Gateway::run` comes to
--   listen, Process.Connections the pools and the producer (`IfaMatching::new`, `Kafka::new`),
--   Process.Threads the three threads from the start to the shutdown as a step relation, which takes
--   from Process.Start whether the server comes to listen (`opens`).
-- * Units has the unit tests that stand in src as Booleans, and Units.Passing that they are true.
-- * Cluster.Selects says which columns the rows of an answer can have.
-- * Crates holds what the source takes of other crates, as records of operations, and apart from them
--   the documented laws that theorems assume. Cluster is the database behind its driver. Samples has
--   instances of all of them, and Tests runs the program on them.
--
-- How they interact: World is the state that requests and the updater share (the registry, the
-- counters, the cluster, the messages that the producer took with its report on each, of a delivery
-- or a failure), and a step of the program is a function on it that returns or panics and keeps what it has done so far. Env holds what does
-- not change, Chance what one request draws (a UUID, a nonce, the time, whether the pool of threads
-- takes the blocking call). One request is handled from its start to its end; Gateway.Histories has
-- the states that sequences of requests and reloads reach. Process.Threads puts them together: a
-- process is the shared state with the flag `control`, the channel to the server, the token by which
-- the updater is unparked, the number of open connections, and where each thread stands; a reload and a request are one step each,
-- and the steps of the threads come in any order. The flag is one variable that is read and written
-- as a whole, so the relaxed order of its accesses adds nothing. Process.Production goes from the
-- configuration over the start to the requests that are answered.
--
-- Numbers: texts are lists of their UTF-8 bytes, so an index into a text counts bytes as in the
-- source. A timestamp is read with the checks of `u64` at 2 ^ 64. The digits of a number are written
-- with fuel, one more than the number, which is more than it has digits. An `f64` is its bit pattern.
--
-- Not modelled: the socket and the runtime, of which only the states of the server and the
-- number of open connections are kept; the output of the logs; the histograms of latencies, which
-- nothing reads but the output of the metrics; the bytes of JSON, which `from_slice` turns into a document before a batch is
-- read from it; what a static does when two threads use it first at the same time: a process starts
-- with its statics made; the two unit tests that need the cipher; the types generated from protobuf,
-- of which the fields that the source sets are kept.
pub mod Base
pub mod Crates
pub mod Events
pub mod Encryption
pub mod Context
pub mod Config
pub mod Cors
pub mod Error
pub mod Metrics
pub mod Cluster
pub mod Results
pub mod AppRegistry
pub mod Bus
pub mod World
pub mod Samples
pub mod Tests
pub mod IfaMatching
pub mod Gateway
pub mod Process
pub mod Units

-- ===== src/Lib.antt =====
-- Suffren, a distributed rate limiter: a limiter over an engine that counts in counters which the
-- nodes of a cluster merge and agree on by a protocol of lattice agreement.
--
-- The parts, from the data upwards:
--   * Crdt models internal/crdt: GCounter is gcounter.go, CounterMap is counter_map.go and Lattice is
--     lattice.go, an interface that the maps implement and that the protocol takes as a parameter.
--   * Protocol models internal/protocol: the messages.
--   * Agreement models internal/latticeagreement: Acceptor, Proposer and Learner are the files of
--     these names, Router is router.go with the constructor of lattice_agreement.go, and Quorum puts
--     the acceptors of a cluster together, Later two quorums in time, and System the acceptors, the
--     proposers, whose ACKs it attributes to their senders (the code counts replies), and the
--     learners.
--   * Engine models internal/engine/engine.go: it increments the local map, has it proposed in
--     batches, which the goroutine in Flusher flushes, and answers its callers from the learn
--     callback. Startup is the start and the stop; Pending, Committed, Answering and
--     Answers follow an increment to its answer, Reads a read after it, and
--     Unanswered one that a later increment holds back.
--   * Limiter models internal/limiter/limiter.go: it derives the keys of the sliding window, asks the
--     engine and decides.
--   * Api models internal/api: Writer is middleware.go, Server has the handlers of
--     server.go, and Routes its routes and what Start serves.
--   * Storage models internal/storage/file_storage.go.
--   * P2p models internal/p2p: Client is client.go, Connection is connection.go, Network is network.go,
--     Server is the
--     goroutine of a connection in server.go, Listener its accept loop and Close.
--   * Node models internal/node/node.go: it hands the messages of the network to the router.
--   * Deployment puts limiters, engines and the agreement of all nodes together: the requests for one
--     key in one window.
--   * Retry models internal/retry/retry.go.
--   * Config models internal/config/config.go.
--   * Cmd models cmd/suffren in Peers, the parser of the peers, Main, the choices of main, and Cli, the
--     command loop of cli.go; Bench is what cmd/bench/main.go makes of the results of its requests.
--   * Base and GoMap hold what these share; Tests applies the results to concrete inputs.
-- A function keeps its name in the spelling of this library: HandlePropose is handle_propose.
--
-- How the code is read:
--   * A Go map is a list of entries with distinct keys; what holds of it holds in any order of its
--     iteration. A missing key reads as in Go: 0, or the second result false, which is `none`.
--   * uint64 is a natural number below 2^64, and sums and differences wrap by a remainder.
--   * A method that holds its mutex from start to end is one step on a state. A call of the engine
--     waits outside the mutex, so it is two steps: one up to the wait and one after it.
--   * Calls of the network and of the learn callback, which the handlers make in goroutines of their
--     own, are outputs; a message may be lost, repeated, delayed or reordered, since a result about
--     handlers quantifies over the sequences of messages that they get.
--   * A call on a nil interface value panics: Result has a value for it.
--   * Counter maps are values in Crdt, whose methods copy what they take over. In the engine the live
--     map is shared with operations in flight, so there maps stand in a store, by address.
--   * opID, unflushedOps and the sizes of lists are natural numbers without a bound.
--   * time, fmt, and float64 are parameters of the limiter, as is the engine there; so are the file
--     system, JSON, connections and the network service where they are called. What is relied on
--     stands in a record of hypotheses beside the theorem that needs it.
-- Every loop is a recursion on the list that it runs over, or on the attempts that are left. Only the
-- loop of the engine's Start runs on fuel: its rounds sleep 500 ms each, so the rounds that fit into
-- the timeout and two more are enough.
--
-- Not modelled: internal/retry/jitter.go, a random number that nothing uses; the flags, the .env file and
-- the logger of cmd/suffren and the requests of cmd/bench, which are input and output; sockets and
-- the encodings of messages, which are parameters or left out; the listening of the HTTP server, and
-- gob's registration of types; calls of the client of internal/p2p that interleave.
pub mod Base
pub mod GoMap
pub mod Crdt
pub mod Protocol
pub mod Agreement
pub mod Engine
pub mod Limiter
pub mod Retry
pub mod Api
pub mod Storage
pub mod P2p
pub mod Node
pub mod Deployment
pub mod Config
pub mod Cmd
mod Tests

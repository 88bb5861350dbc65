-- ===== src/Lib.antt =====
-- A model of e2etest, a framework for end-to-end tests of ScyllaDB and its Vector Store.
--
-- The program. A run (crates/e2etest/src/lib.rs, run.rs) takes a configuration and a tree of groups
-- of tests. It makes a filter from the configuration (filter.rs), records which tests are defined
-- and which are included (statistics.rs), and runs the root group (group.rs): the group's fixture is
-- set up, the considered subgroups run one after the other, then the group's tests run, some of them
-- concurrently (test.rs), and the fixtures are torn down. Each setup, test and teardown is a task
-- with its entries in the record (task.rs). Fixtures are kept by a manager (fixture.rs). Beside the
-- framework stand actors that fixtures use, each in the lib.rs of its crate: the clusters of ScyllaDB
-- and of the Vector Store, which are processes, a proxy, a DNS server, a firewall and certificates.
-- A handle sends messages to its actor through a channel. The macros of crates/e2etest-macros make
-- the groups, the tests and their fixtures from functions.
--
-- The files.
--   Prelude       texts as lists of code points, their splitting and sorting, sets and maps as lists
--   Statistics    statistics.rs: the record `Inner`, `record_event` for `record`, and the counters
--   Filter        filter.rs: `FilterMatcher`, `new`, `consider_group`, `consider_test`; Entries and
--                 Wanted are about one filter, Observed, Several and Selection about the entries that
--                 filters make together, Keeping, Groups, Root and Reach about the groups
--   Fixture       fixture.rs: `setup_fixture` and `teardown` for `Inner::setup` and
--                 `Inner::teardown`, `get_arc` for `Inner::get`; Lifecycle and Later are about
--                 setups in a row, TeardownOrder and TeardownEnds about teardowns
--   Backtrace     backtrace.rs: the hook of a run and the text that it saves
--   Runner        Task is task.rs, Test and Steps are test.rs, Group and Pool are group.rs, Run is
--                 run.rs and the configuration of lib.rs; Runtime is what they call;
--                 Recording, Filtered, Complete, Configured and Panic are about whole runs
--   System        command lines and addresses, and the system calls of the actors
--   Scylla        the actor of the ScyllaDB cluster: `process` and the functions it calls, and Handle
--                 with the methods of its extension trait; Refinement is about the list of nodes,
--                 Stopped about the processes, Ready about the wait for the nodes
--   VectorStore   the actor of the Vector Store cluster, in the same way; Waiting is about its polls
--   Actor         what all actors share: `settle` for the loop of the task, and what is relied on of the
--                 bounded channel of tokio: `post` for a `send`, `ask` for a `send` with an answer
--   Proxy         crates/e2etest-scylla-proxy-cluster/src/lib.rs
--   Dns           crates/e2etest-dns/src/lib.rs
--   Firewall      crates/e2etest-firewall/src/lib.rs; Routes are its netlink messages
--   Tls           crates/e2etest-tls/src/lib.rs
--                 Each has `process`; Handle, where there is one, has `new`, the task as `run_actor`
--                 and the methods of the extension trait.
--   Macros        crates/e2etest-macros/src/lib.rs: Parameters has the parsers, `group` and `test` are
--                 the macros, Setup is the fixture that they generate
--   Examples      concrete inputs; Filtering, Recordings and Failures are the unit tests of
--                 filter.rs, statistics.rs and group.rs
--
-- State is passed on explicitly. A panic of the program is `none`. The names of fields and functions
-- are the program's, but where a name would be declared twice or is a word of the language: `record`
-- is `record_event`, the handlers of the actors end in `_nodes`, `_one` or `_all`.
--
-- Parameters. The bodies of tests and fixtures, tokio and its timeouts are the record `Runtime`; its
-- `next_ready` is the choice of the executor among the futures. Two pieces of libraries are written
-- out, as what is relied on of them and not as code of the repository: `for_each_concurrent` of
-- futures (`drive`), with every choice of the executor open, and the channel of tokio (`post`, `ask`),
-- with every turn of the actor open. The operating system, the processes and the network are the
-- record `Os`. `IsHealthy` says that its calls succeed, `Stops` that a process which was killed and
-- waited for has ended and stays so, `ComesUp` and `Serves` that the nodes become ready,
-- `AlwaysServes` that they are, `Opens` which ports are open.
-- The libraries of the other actors are the records `ProxyLibrary`, `DnsLibrary`, `Netlink` and `Pki`,
-- with what the code relies on in `HasRules`, `IsStore`, `Kernel`, which carries out every request to
-- add or delete a route, and `IsFiling`. Tokens and the case of names are the record `Syn`. Other
-- panic hooks are the record `Surroundings`.
--
-- Bounds and fuel. Numbers are unbounded where the program counts list lengths. The nesting of
-- `setup_fixture` has fuel; fuel above the rank of the fixture is enough, where a rank exists because
-- a future's type cannot contain itself. The passes of `teardown` have fuel; one more than there are
-- entries is enough. The executor's loop `drive` has one round for each poll, at most four for each
-- test. The loops of the ScyllaDB actor that poll a node may go on for ever and have fuel; where
-- nodes come up after a bounded number of sleeps, two polls more are enough. The poll of the Vector
-- Store actor counts the requests that fit into its timeout. The loops over the
-- parameters of the macros have fuel; more than there are tokens is enough. The turns that an actor
-- takes before a request are arbitrary numbers. The serial number of the DNS actor is a `u32`,
-- whose overflow panics or wraps by the kind of build.
--
-- Not modelled: log lines, and what is printed of a backtrace or of the statistics; the two wrappers of
-- the fixture manager's lock; clients that are cancelled while they wait, and several clients of one
-- actor; the serving of DNS requests; the fixed text of what the macros generate. A spawned future
-- changes the world at the point where it is joined.
pub mod Prelude
pub mod Statistics
pub mod Filter
pub mod Fixture
pub mod Backtrace
pub mod Runner
pub mod System
pub mod Actor
pub mod Scylla
pub mod VectorStore
pub mod Proxy
pub mod Dns
pub mod Firewall
pub mod Tls
pub mod Macros
pub mod Examples

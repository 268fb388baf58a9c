-- ===== src/Lib.antt =====
-- The gateway daemon, which keeps WireGuard networks on a machine as a manager configures them, and
-- reports traffic and peers back to it.
--
-- The parts of the program. The client crate (client/src/lib.rs) has the configuration, the traffic
-- slices and the messages that the daemon and the manager share. The daemon applies a configuration
-- (src/gateway.rs): one network namespace per network, with a WireGuard interface, a veth pair to a
-- bridge, iptables rules that forward ports, and one NGINX in front that dispatches by host. What it
-- computes from a network (names, addresses, ports, tables, texts) is in src/types.rs. A watchdog
-- (src/watchdog.rs) reads the statistics of every network at intervals, caches them, and sends events and
-- slices of traffic on broadcast channels. The connection to the manager (src/websocket.rs) serves its
-- requests and passes on what is on the channels.
--
-- The files. Base has what the modules share: texts, results, ordered maps, words, times, and the calls
-- `Call W A`, which take the world to a result and the world after it. Crates has the third-party types
-- as parameters, System the calls of the outside world; each has a concrete sample for the examples.
-- - Client/Config, Client/Traffic, Client/Event: client/src/lib.rs. `apply_partial`, `TrafficInfo::add`
--   (`add_info`), `NetworkTraffic::add` (`add_network`), `DeviceTraffic::add` (`add_device`).
-- - Types/Names, Types/Bridge, Types/Ports, Types/Forwarding, Types/Wireguard, Types/Stats: src/types.rs.
--   The four tables of `Forwarding` are two pairs; `register` is the body of `add_https` and `add_http`.
--   Types/Stats/Parse has the `FromStr` parsers, Types/Stats/Dump what `wg show … dump` prints for them, and
--   Types/Wireguard/Sections what `wg syncconf` finds in the text of `to_config`.
-- - Gateway/Interfaces, Gateway/Iptables, Gateway/Network, Gateway/Nginx, Gateway/Apply: src/gateway.rs,
--   under the names of its functions. The configuration behind `Global::lock` is a field of the state.
-- - Watchdog/Peer: `watchdog_peer` of src/watchdog.rs, in the pieces of its body; Watchdog/Network: the
--   rest of it, and the task of `Global::watchdog` (src/lib.rs) that starts it again.
--   Watchdog/Runs: run after run, over all networks.
-- - Websocket: `connect` and `connect_run` of src/websocket.rs. What `select!` yields is a list.
-- - Gateway/Settled: the description of a network that is in place, with which a second apply is compared.
--   Gateway/Effects: which configuration WireGuard and NGINX run with after an apply.
--   Gateway/Kernel: what each call makes true of the system, as facts, and from that what an apply leaves.
-- - Options: src/lib.rs and src/main.rs. `run` starts the watchdog, NGINX and the connection.
-- - Integration/Generate, Integration/Exchange, Integration/Verify, Integration/Run: integration/src/main.rs,
--   which plays the manager in a test. Random numbers, keys and commands are the parameter `Tools`.
-- - Tests: the theorems at concrete inputs.
--
-- Conventions. A function that can return an error or panic returns a `Result` with `ok`, `err` and
-- `panic`; the message of an error is kept with its contexts. `Build` tells a debug build, in which
-- overflow panics, from a release build, in which it wraps around; `usize` has 64 bits. Maps are
-- association lists in the order of their keys. Every loop of the source runs over a collection and is
-- a structural recursion, so no fuel is used; the endless loop of the watchdog is its step `tick`, and
-- that of the connection runs over the list of what is selected.
-- `HashSet` has an order that the model takes from the list it was made of. Logging is left out.
--
-- What is assumed of the outside: IsLawful (Crates) for keys, URLs, networks and base32; Journal
-- (Watchdog/Peer/Events) for the events that were sent; Namespaces (Gateway/Namespaces) for the calls
-- on network namespaces; SendLog (Websocket/Answers) for the responses; IsPrinted (Crates) for what is
-- printed and parsed; Replaces (Gateway/Iptables/Cleaning) for the regular expression; Steady
-- (Gateway/Settled) for calls that only read; Kernel (Gateway/Kernel) for what the calls that change
-- the system make the reading calls answer (rules that were restored are saved as they are but for
-- comments, blank lines and packet counters); Effects (Gateway/Effects) for what WireGuard and NGINX
-- run with; Calm (Watchdog/Peer/Returning), Keyed (Watchdog/Runs) and Reporting (Watchdog/Runs/Live)
-- for clock, keys and statistics while the watchdog runs; IsFair (Integration) for random numbers;
-- RequestLog (Integration/Run/Sending) for requests. The samples and the examples meet all of them.
--
-- Not modelled: the reading of the command line (structopt) and logging, the opening of the test
-- runner's listener, the templates, which tera renders, the pause before the
-- connection is made again and that of the test runner. The locks are not modelled: `apply` and
-- `apply_partial` hold the one on the configuration throughout, so they do not interleave.
pub mod Base
pub mod Client
pub mod Crates
pub mod Gateway
pub mod Integration
pub mod Options
pub mod System
pub mod Tests
pub mod Types
pub mod Watchdog
pub mod Websocket

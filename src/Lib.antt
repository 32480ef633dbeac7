-- ===== src/Lib.antt =====
-- Cyberia VPN: a verification library of the Rust core.
--
-- The program is a VPN client and node. Its core decides to which node to connect (core/routing),
-- brings a WireGuard tunnel up and down through platform tools (core/transport), and keeps traffic
-- from leaving outside the tunnel while that happens (core/killswitch). A retry policy spaces the
-- attempts.
--
-- Parts of the program and the files that model them:
-- - core/routing/src/backoff.rs: Routing/Backoff. `BackoffPolicy::validate` and `BackoffPolicy::delay`
--   on durations that are their numbers of nanoseconds; a `checked_mul` that overflows is written out.
-- - core/routing/src/lib.rs: Routing/Score (`RoutingPolicy::validate`, `RoutingPolicy::score`) and
--   Routing/Select (`RoutingPolicy::select`, `compare_rank`). Weights, limits and measurements are
--   numbers with their machine ranges as the hypotheses `IsTyped` and `IsMeasured`.
-- - core/routing/src/selector.rs: Routing/Selector. `RouteSelector` is a record; its methods pass it on
--   explicitly. An `Instant` is a number of nanoseconds up to the largest one of the platform, and the
--   map of circuits is a function from IDs.
-- - core/killswitch/src/lib.rs: KillSwitch/Machine (`KillSwitch`) and KillSwitch/Controller
--   (`ConnectionController`). The traits `Transport` and `Firewall` are records of operations; a
--   controller runs beside the world. The contracts that the controller relies on are `Obeys` of
--   KillSwitch/Controller/Contract.
-- - core/transport/src/lib.rs: Transport/Types and Transport/Context (`ConnectContext::check`).
-- - core/transport/src/wireguard.rs: WireGuard/Profile (keys, networks, addresses and endpoints),
--   WireGuard/Validate (the validation of profiles, node configurations, peers and gateway policies)
--   and WireGuard/Adapter (`WireGuardAdapter` over any backend). Networks and Accepted hold what the
--   validation accepts. Addresses are in Net, bits of words in Bits, and pairwise distinct lists in
--   Apart.
-- - core/transport/src/linux.rs: Linux/Tools (the paths of the tools and how arguments are printed),
--   Linux/Backend (`LinuxWireGuardBackend`, with its commands in Linux/Commands), Linux/Dns
--   (`LinuxDnsBackend`; the policy is in Transport/Dns), Linux/Gateway (`LinuxWireGuardNodeGateway`),
--   Linux/Node (`LinuxWireGuardNode`; who owns its keys and routes is in Node/Owned, Added, Removed and
--   Ownership), Linux/Managed (`LinuxManagedWireGuardNode`, the node with its gateway) and Linux/Health, which reads the tools' output with Text/Parse.
-- - core/killswitch/src/linux.rs and linux_connection.rs: KillSwitch/Nftables (`NftablesBackend`) and
--   KillSwitch/Connection (`LinuxWireGuardConnection`, the controller over the adapter, with DNS).
--   Nftables/Ruleset reads rulesets back, Nftables/Effect says which policy is in effect, and
--   Nftables/Quiet, Connection/Quiet and Connection/Lookups say which methods leave it alone;
--   Connection/Safety and Connection/Histories put them together. Connection/Build assembles a
--   connection from its settings; Connection/Checks, Trusted and Assembly are about that, and
--   Connection/AdapterDown is about a torn down adapter. The state
--   machine that a controller promises is in Controller/History/Stance.
-- - apps/linux-client/src/lib.rs and main.rs: Client/Config (`load_config`), Client/Settings
--   (`into_connection_settings` with the decoding of keys and networks), Client/Lease
--   (`acquire_interface_lease`), Client/Validation (`validate_client_configuration`), Client/Run
--   (`run_until_shutdown`) and Client/Main (`run`). A slice or a sum of times that may panic returns an
--   `Abort` (Result).
-- - The outside world, which is clocks, cancellation flags, files and platform processes, is the record
--   `World` of Transport/Platform: what each observation and each process call answers is an arbitrary
--   function of the step at which it is made, and the calls are kept in a trace. Transport/Calls says how a
--   method extends the trace, and Transport/Trace compares traces. The debug text of an error is a function of the world too. A world that
--   hinders nothing is one that `Favours` of Transport/Favoured, and the Favoured modules of the
--   backend, the resolvers and the connection say what goes through on it.
--
-- What the sources use of the standard library on texts is in Text/Reader and Net/Parse, which read
-- numbers and addresses, and in Net/Show, which prints addresses.
--
-- The client loads a configuration, leases the interface, builds a connection and runs it. The
-- controller calls the adapter, and the adapter calls a backend; the backend, the resolvers, the
-- gateway and the firewall each run commands. The Linux connection calls the controller and the
-- resolvers; the managed node calls the node and the gateway.
--
-- Text is its list of UTF-8 bytes (Text). Fallible code returns a `Result` (Result); a method that
-- changes its object and may fail is an `Exec` (Exec), whose state survives an error. `Ends` of Exec is
-- the form in which the ways of ending of such a method are stated. Shared tests, list lemmas and
-- machine words are in Prelude. Examples holds runs at concrete inputs.
--
-- No fuel is used, except for the digits of a number in `decimal` of Text, where the number and one
-- is the fuel, which Text/Parse/Numbers is about, and for the groups of an address, of which there are
-- at most eight: every loop of the modelled code runs over a list.
--
-- Not modelled: the tests; the control API (Go, an HTTP service over a database); deployment scripts;
-- the processes that the tools run, which are the world's answers, and with them
-- `SystemCommandRunner` and the process of `SystemNftablesRunner`. The reading of JSON is a parameter
-- of Client/Config, and the handler of the interrupt signal and the wait for it are parameters of
-- Client/Main; that the wait changes no ruleset is a hypothesis where it is needed.
pub mod Result
pub mod Exec
pub mod Prelude
pub mod Text
pub mod Bits
pub mod Apart
pub mod Net
pub mod Routing
pub mod Transport
pub mod WireGuard
pub mod Linux
pub mod KillSwitch
pub mod Client
pub mod Examples

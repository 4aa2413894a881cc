-- ===== src/Lib.antt =====
-- home-kai: a coordinator and agents that keep a WireGuard overlay network. The coordinator stores
-- nodes, static peers, policies and published ports; on each change it raises the version of the
-- netmap and wakes the long polls of the agents. For each node it computes a netmap: the peers,
-- their addresses and candidates for direct paths, the names of hosts, and the rules of the filter.
-- An agent checks the signatures of the network lock, keeps a prober for direct paths, and makes the
-- peers of its WireGuard device and its filter chains of the netmap.
--
-- Texts are lists of code points, times are nanoseconds after the zero time, which is 0. Numbers
-- are natural; where the source computes in 64 bits the wrap-around is written out (the lifetime of
-- a token). Subtractions of times stop at 0, which the tests on them do not see.
--
-- Files, with the sources that they model:
-- - Base: lists, texts and Boolean tests that the others share; Base/Int for signed requests.
-- - Text (internal/text/text.go): comma lists and slugs; Text/Csv, Text/Slug.
-- - Netip, Netip/Parse: what the program uses of Go's net/netip, with addresses as numbers. The
--   text of an IPv6 address is a parameter, `Ip6Text`.
-- - Ipam (internal/coordinator/ipam.go): AllocateIP, with fuel for one round per address of the
--   block: each round goes on to the next address of it.
-- - Model (internal/coordinator/store/store.go, internal/api/types.go): the records.
-- - Acl (internal/coordinator/acl.go): computeFilterRules and computeForwardRules; Acl/Inbound and
--   Acl/Forward compare them with the policies.
-- - Normalize and its children (internal/coordinator/acl.go, routes.go, node.go): normalizeTags, normalizePorts,
--   normalizeRoutes, sanitizeEndpoints.
-- - Hosts (internal/coordinator/netmap.go): buildHosts. The search for a free label has fuel for one
--   round more than there are labels: each round but the last meets another one of them.
-- - Netmap (internal/coordinator/netmap.go, node.go): BuildNetmap and buildNetmapFor.
-- - Store/Exec: the state `World` and calls that may fail, with `faults` saying which calls of the
--   database fail; Store/Rows and Store/Calls (internal/coordinator/store/store.go): the statements
--   and the methods, with tables as lists of rows.
-- - Server and its children (internal/coordinator/server.go, session.go, node.go, lock.go,
--   staticpeer.go, publish.go, acl.go): the handlers as actions that end in a body or a status.
--   Server/Addresses, Server/Wakes, Server/Enroll/Tokens, Server/Lock/Arming and
--   Server/Sessions/Lifetime hold proofs. Server/Routes is the table of Server.Handler: the calls that
--   change the state, each behind its check of the caller. Server/Sound says when a database is
--   well-formed; its children go through the statements, the handlers and the reachable states with
--   Store/Keeps, the actions that keep a test of the database, and Store/Outcomes, those that fail.
--   Server/Sound/Spent and Server/Sound/Once follow an enroll token.
-- - Server/Names (internal/coordinator/dns, server.go): the public names of devices, which
--   BackfillDNS fills in, with any provider; Server/Names/Timeweb is the provider of the
--   source. Server/Phones (staticpeer.go): the configuration that a phone reads.
-- - Agent/Probe (internal/agent/probe.go), Agent/Lock (lock.go), Agent/Filterspec (filterspec.go),
--   Agent/Compose (agent.go, composePeers). Agent/Filterspec/Verdicts says what a chain of iptables
--   does to a packet, and Agent/Filterspec/Admission reads the chains of the agent with it.
-- - Agent/Iptables and Agent/Firewall (internal/agent/nat_linux.go, agent.go, syncFilter): the calls
--   of iptables. Agent/Iptables/Laws states what its documentation says of them.
-- - Agent/Dns (internal/agent/dnsproxy.go), Agent/HostsFile (hosts.go), Agent/Publish (publish.go),
--   Agent/Rekey (rekey.go, state.go, client.go).
-- - Agent/Wgdev (internal/agent/wgdev): the devices of Linux and macOS. Agent/Wgdev/Routes has the loops
--   of SyncRoutes over what one call for a route does, Agent/Wgdev/Uapi the texts of wireguard-go.
-- - Agent/Advertise (cmd/kai-agent/main.go): the flag --advertise-routes.
-- - Agent/Report (internal/agent/hub.go), Agent/LocalStatus (localapi.go): what a node reports.
-- - Agent/Run (internal/agent/agent.go): applyNetmap, which calls all of these, and syncLoop, on a
--   list of what its calls come to.
-- - Traffic: the rules of the coordinator in the chains of an agent.
-- - Tests: the theorems at concrete inputs.
--
-- Parameters: Base64 and Ed25519 (`Crypto`), the hash and the key parser (`Env`), the text of IPv6
-- addresses, net.SplitHostPort, unicode.ToLower, the results of random texts and of the DNS service,
-- the time; for an agent, iptables (`Iptables`), netlink and wgctrl (`Netlink`), wireguard-go with
-- ifconfig and route (`Machine`), the device as a whole where the loop uses it (`Device`), the
-- interfaces of the machine, the exchange with a public resolver, and whether files are written, ports
-- are free and the coordinator answers; requests to the DNS service (`Timeweb`).
--
-- Not modelled: HTTP, JSON and the listings that only read; the webhook, TLS, the metrics and the web
-- page; the start of an agent and its enrollment; the rest of the command line. Handlers run one at a time, so an
-- interleaving of two of them is not modelled, and neither is one of the loops of an agent, which its
-- mutexes exclude.
pub mod Base
pub mod Text
pub mod Netip
pub mod Ipam
pub mod Model
pub mod Acl
pub mod Normalize
pub mod Hosts
pub mod Netmap
pub mod Agent
pub mod Store
pub mod Server
pub mod Traffic
pub mod Tests

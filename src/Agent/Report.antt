-- ===== src/Agent/Report.antt =====
-- What a node reports to the coordinator (internal/agent/hub.go, and reportStatus of
-- internal/agent/agent.go). The interfaces of the machine are an argument.
pub mod Accepted
use home_kai.Base.{
  ℕ, ◌+◌, ◌-◌, ◌*◌, ◌/◌, ◌^◌, Text, codes, text_eq, Bool, true, false, not, ◌&&◌, ◌||◌, Option,
  none, some, List, [], ◌∷◌, ◌++◌, any, gather, ltb, leb, ◌==◌, is_empty, if◌then◌else◌,
}
use home_kai.Base.Int.{ℤ, pos, negsuc}
use home_kai.Netip.{
  Addr, invalid, v4, v6, Prefix, Ip6Text, unmap, is_loopback, contains, show_addr_port,
}
use home_kai.Model.{role_hub, second, minute}
use home_kai.Agent.Probe.{PeerStatus}
use home_kai.Agent.HostsFile.{has_prefix}
use home_kai.Server.Nodes.{PeerObserved, StatusReport}

abbrev pub handshake_freshness : ℕ
handshake_freshness = 3 * minute

abbrev less_by : ℕ → ℤ
less_by d = if d == 0 then pos 0 else negsuc (d - 1)

-- `int64(d.Seconds())` of the time from `b` to `a`
unfoldable pub seconds_between : ℕ → ℕ → ℤ
seconds_between a b = if leb b a then pos ((a - b) / second) else less_by ((b - a) / second)

unfoldable pub observe_peer : ℕ → PeerStatus → List PeerObserved
observe_peer now p =
    if is_empty p.endpoint || p.last_handshake == 0
    then []
    else if ltb handshake_freshness (now - p.last_handshake)
    then []
    else record {
      wg_public_key = p.public_key;
      endpoint = p.endpoint;
      last_handshake_age_sec = seconds_between now p.last_handshake;
    }
      ∷ []

-- `none` where the device could not be read
unfoldable pub observed_peers : ℕ → Option (List PeerStatus) → List PeerObserved
observed_peers now none = []
observed_peers now (some peers) = gather (observe_peer now) peers

-- net.Interface: the addresses are `none` where they cannot be read, and one of them is where it is
-- no net.IPNet.
pub record Iface : Type 0 where
  pub name : Text
  pub is_up : Bool
  pub addrs : Option (List (Option Addr))

unfoldable pub virtual_iface : Text → Bool
virtual_iface name = any (has_prefix name) (
    codes "docker"
    ∷ codes "br-"
    ∷ codes "veth"
    ∷ codes "utun"
    ∷ codes "kai"
    ∷ codes "virbr"
    ∷ codes "tailscale"
    ∷ codes "wg"
    ∷ [])

-- IP.IsPrivate of an IPv4 address
unfoldable pub is_private : ℕ → Bool
is_private n = ((n / 2 ^ 24) == 10) || ((n / 2 ^ 20) == 2753) || ((n / 2 ^ 16) == 49320)

module _ (ip6 : Ip6Text) (listen_port : ℕ) (overlay : Prefix) where
  -- IP.To4 gives no address for what is no IPv4 address.
  abbrev pub endpoint_of4 : Addr → List Text
  endpoint_of4 invalid = []
  endpoint_of4 (v6 n z) = []
  endpoint_of4 (v4 n) =
      if is_loopback (v4 n) || not (is_private n) || contains overlay (v4 n)
      then []
      else show_addr_port ip6 (record { addr = v4 n; port = listen_port }) ∷ []

  unfoldable pub local_endpoint : Option Addr → List Text
  local_endpoint none = []
  local_endpoint (some a) = endpoint_of4 (unmap a)

  abbrev pub addr_endpoints : Option (List (Option Addr)) → List Text
  addr_endpoints none = []
  addr_endpoints (some addrs) = gather local_endpoint addrs

  unfoldable pub iface_endpoints : Iface → List Text
  unfolding virtual_iface
  iface_endpoints ifc =
      if not ifc.is_up || virtual_iface ifc.name then [] else addr_endpoints ifc.addrs

  unfoldable pub local_endpoints : Option (List Iface) → List Text
  local_endpoints none = []
  local_endpoints (some ifaces) = if listen_port == 0 then [] else gather iface_endpoints ifaces

  -- the report of `Agent.reportStatus`
  unfoldable pub status_report :
      Text → List Text → ℕ → Option (List Iface) → Option (List PeerStatus) → StatusReport
  status_report role advertise_routes now ifaces peers = record {
    endpoints_local = local_endpoints ifaces;
    advertised_routes = advertise_routes;
    peers_observed = if text_eq role role_hub then observed_peers now peers else [];
  }

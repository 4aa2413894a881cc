-- ===== src/Agent/LocalStatus.antt =====
-- internal/agent/localapi.go: what a node says of its tunnels to its own machine. The hostname and the
-- version are arguments; the socket and JSON are left out.
pub mod Paths
use home_kai.Base.{
  ℕ, Text, codes, text_eq, Bool, true, false, not, ◌&&◌, Option, none, some, List, [], ◌∷◌, map,
  ◌==◌, is_empty, if◌then◌else◌,
}
use home_kai.Base.Int.{ℤ, pos, negsuc}
use home_kai.Model.{Peer, Netmap, HostEntry, role_hub}
use home_kai.Agent.Probe.{PeerStatus, no_status, status_of, ProbeState, Phase, Probes, is_direct}
use home_kai.Agent.Report.{seconds_between}
use home_kai.Agent.Wgdev.Uapi.{cut}

pub record LocalPeer : Type 0 where
  pub hostname : Text
  pub overlay_ip : Text
  pub role : Text
  pub path : Text
  pub endpoint : Text
  pub candidates : List Text
  pub last_handshake_age_sec : ℤ
  pub rx_bytes : ℤ
  pub tx_bytes : ℤ

pub record LocalStatus : Type 0 where
  pub node_id : Text
  pub hostname : Text
  pub role : Text
  pub overlay_ip : Text
  pub coordinator_url : Text
  pub agent_version : Text
  pub netmap_version : ℕ
  pub peers : List LocalPeer
  pub hosts : List HostEntry

-- What of the state of the agent is shown.
pub record Identity : Type 0 where
  pub node_id : Text
  pub role : Text
  pub overlay_ip : Text
  pub coordinator_url : Text

abbrev before_slash : Text → Option (Text × Text) → Text
before_slash s none = s
before_slash s (some (ip, bits)) = ip

unfoldable pub trim_cidr : Text → Text
unfolding cut
trim_cidr s = before_slash s (cut b'/' s)

abbrev shown_ip : Text → List Text → Text
shown_ip ip [] = ip
shown_ip ip (a ∷ allowed) = if is_empty ip then trim_cidr a else ip

-- `a.probes[key]`, if it is there
unfoldable pub probe_of : Text → Probes → Option ProbeState
probe_of key [] = none
probe_of key ((k, ps) ∷ rest) =
    let others = probe_of key rest in if text_eq key k then some ps else others

abbrev pub hub_path : Text
hub_path = codes "hub"

abbrev pub in_path : Text
in_path = codes "in"

abbrev pub relay_path : Text
relay_path = codes "relay"

abbrev pub direct_path : Text
direct_path = codes "direct"

-- The path and the endpoint of another spoke, with its candidates.
abbrev pub spoke_path : Option ProbeState → Text → Text × Text × List Text
spoke_path none endpoint = (relay_path, endpoint, [])
spoke_path (some ps) endpoint =
    if is_direct ps.phase
    then (direct_path, endpoint, ps.candidates)
    else (relay_path, [], ps.candidates)

unfoldable pub shown_path : Text → Probes → Peer → Text → Text × Text × List Text
shown_path role probes p endpoint =
    if text_eq p.role role_hub
    then (hub_path, endpoint, [])
    else if text_eq role role_hub
    then (in_path, endpoint, [])
    else spoke_path (probe_of p.wg_public_key probes) endpoint

unfoldable pub handshake_age : ℕ → ℕ → ℤ
handshake_age now hs = if hs == 0 then negsuc 0 else seconds_between now hs

-- the body of the loop; a key without a status has the zero one
unfoldable pub local_peer : Text → ℕ → List PeerStatus → Probes → Peer → LocalPeer
local_peer role now statuses probes p =
    let live = status_of p.wg_public_key statuses (no_status p.wg_public_key) in
    let shown = shown_path role probes p live.endpoint in
    record {
      hostname = p.hostname;
      overlay_ip = shown_ip p.overlay_ip p.allowed_ips;
      role = p.role;
      path = shown.0;
      endpoint = shown.1;
      candidates = shown.2;
      last_handshake_age_sec = handshake_age now live.last_handshake;
      rx_bytes = live.rx_bytes;
      tx_bytes = live.tx_bytes;
    }

abbrev identity_status : Identity → Text → Text → LocalStatus
identity_status me hostname version = record {
  node_id = me.node_id;
  hostname = hostname;
  role = me.role;
  overlay_ip = me.overlay_ip;
  coordinator_url = me.coordinator_url;
  agent_version = version;
  netmap_version = 0;
  peers = [];
  hosts = [];
}

abbrev with_netmap : Text → ℕ → List PeerStatus → Probes → Option Netmap → LocalStatus → LocalStatus
with_netmap role now statuses probes none st = st
with_netmap role now statuses probes (some nm) st = record st {
  netmap_version = nm.version;
  hosts = nm.hosts;
  peers = map (local_peer role now statuses probes) nm.peers;
}

-- `none` where the device could not be read
unfoldable pub local_status :
    Identity
    → Text
    → Text
    → ℕ
    → Option (List PeerStatus)
    → Probes
    → Option Netmap
    → Option LocalStatus
local_status me hostname version now none probes nm = none
local_status me hostname version now (some statuses) probes nm =
    some (with_netmap me.role now statuses probes nm (identity_status me hostname version))

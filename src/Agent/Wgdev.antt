-- ===== src/Agent/Wgdev.antt =====
-- internal/agent/wgdev: the WireGuard device of a node. `resolve` is net.ResolveUDPAddr with the
-- text of the address that it gives; the kernel and wireguard-go are parameters.
pub mod Routes
pub mod Linux
pub mod Darwin
pub mod Uapi
use home_kai.Base.{
  ℕ, Text, Bool, true, Option, none, some, List, [], ◌∷◌, map, ltb, is_empty, if◌then◌else◌,
}
use home_kai.Base.Int.{ℤ}
use home_kai.Netip.{Addr, Prefix, masked}
use home_kai.Agent.Compose.{PeerConfig}
use home_kai.Agent.Probe.{PeerStatus}

-- wgdev.Config
pub record DeviceConfig : Type 0 where
  pub private_key : Text
  pub listen_port : ℕ
  pub address : Addr
  pub overlay_net : Prefix
  pub mtu : ℕ

-- wgtypes.PeerConfig, the fields that the program sets
pub record WgPeerConfig : Type 0 where
  pub public_key : Text
  pub replace_allowed_ips : Bool
  pub allowed_ips : List Prefix
  pub endpoint : Option Text
  pub persistent_keepalive : Option ℕ

-- wgtypes.Peer, the fields that the program reads
pub record WgPeer : Type 0 where
  pub public_key : Text
  pub endpoint : Option Text
  pub last_handshake_time : ℕ
  pub receive_bytes : ℤ
  pub transmit_bytes : ℤ

module _ (resolve : Text → Option Text) where
  -- the endpoint of a peer; `none` outside is an error
  unfoldable pub resolved : Text → Option (Option Text)
  resolved [] = some none
  resolved (c ∷ s) = elim (resolve (c ∷ s)) [ none ↦ none | some ua ↦ some (some ua) ]

  unfoldable pub to_wg_peer_config : PeerConfig → Option WgPeerConfig
  to_wg_peer_config p = elim (resolved p.endpoint) [
    | none ↦ none
    | some endpoint ↦ some (record {
      public_key = p.public_key;
      replace_allowed_ips = true;
      allowed_ips = map masked p.allowed_ips;
      endpoint = endpoint;
      persistent_keepalive = if ltb 0 p.keepalive then some p.keepalive else none;
    })
  ]

  unfoldable pub to_wg_peer_configs : List PeerConfig → Option (List WgPeerConfig)
  to_wg_peer_configs [] = some []
  to_wg_peer_configs (p ∷ ps) = elim (to_wg_peer_config p) [
    | none ↦ none
    | some c ↦ elim (to_wg_peer_configs ps) [ none ↦ none | some cs ↦ some (c ∷ cs) ]
  ]

abbrev or_no_endpoint : Option Text → Text
or_no_endpoint none = []
or_no_endpoint (some ua) = ua

unfoldable pub to_peer_statuses : List WgPeer → List PeerStatus
to_peer_statuses [] = []
to_peer_statuses (p ∷ ps) =
    record {
      public_key = p.public_key;
      endpoint = or_no_endpoint p.endpoint;
      last_handshake = p.last_handshake_time;
      rx_bytes = p.receive_bytes;
      tx_bytes = p.transmit_bytes;
    }
    ∷ to_peer_statuses ps

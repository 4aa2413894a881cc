-- ===== src/Netmap.antt =====
-- internal/coordinator/netmap.go and the pure part of `buildNetmapFor` (node.go): the network
-- state that the coordinator computes for one node.
pub mod Peers
pub mod Filter
use home_kai.Base.{
  ℕ, zero, suc, ◌+◌, ◌-◌, ◌*◌, Text, codes, text_eq, elem, Bool, true, false, not, ◌&&◌, ◌||◌,
  Option, none, some, List, [], ◌∷◌, ◌++◌, map, any, keep, find, gather, length, ltb, is_empty,
  if◌then◌else◌,
}
use home_kai.Text.{slug}
use home_kai.Netip.{Prefix, Ip6Text, masked, show_prefix, show_decimal}
use home_kai.Model.{
  Node, StaticPeer, Endpoint, Policy, Publish, HostEntry, NetmapSelf, Peer, Netmap, role_hub,
  role_node, hosts_suffix, minute,
}
use home_kai.Hosts.{build_hosts}
use home_kai.Acl.{slash32, compute_filter_rules, compute_forward_rules}

abbrev pub keepalive : ℕ
keepalive = 25

-- A Go map from a node's id to its candidates; a missing key gives nil.
abbrev pub Candidates : Type 0
Candidates = Text → List Text

-- a node as the hub sees it
abbrev pub hub_sees_node : Node → Peer
hub_sees_node n = record {
  node_id = n.id;
  hostname = n.name;
  role = n.role;
  dns_name = n.dns_name;
  overlay_ip = n.overlay_ip;
  wg_public_key = n.wg_pub_key;
  endpoint = [];
  allowed_ips = slash32 n.overlay_ip ∷ n.routes_enabled;
  keepalive_sec = 0;
  candidates = [];
  lock_sig = n.lock_sig;
}

abbrev pub hub_sees_static : StaticPeer → Peer
hub_sees_static p = record {
  node_id = p.id;
  hostname = p.name;
  role = role_node;
  dns_name = p.dns_name;
  overlay_ip = p.overlay_ip;
  wg_public_key = p.wg_pub_key;
  endpoint = [];
  allowed_ips = slash32 p.overlay_ip ∷ [];
  keepalive_sec = 0;
  candidates = [];
  lock_sig = p.lock_sig;
}

-- `toAPIPublish` without the creation time
abbrev pub served : Publish → Publish
served p = record p { created_at = 0 }

-- another spoke as a spoke sees it
abbrev pub spoke_sees_node : Candidates → Node → Peer
spoke_sees_node candidates n = record {
  node_id = n.id;
  hostname = n.name;
  role = n.role;
  dns_name = n.dns_name;
  overlay_ip = n.overlay_ip;
  wg_public_key = n.wg_pub_key;
  endpoint = [];
  allowed_ips = slash32 n.overlay_ip ∷ [];
  keepalive_sec = keepalive;
  candidates = candidates n.id;
  lock_sig = n.lock_sig;
}

abbrev pub is_other : Node → Node → Bool
is_other self n = not (text_eq n.id self.id)

abbrev pub is_hub : Node → Bool
is_hub n = text_eq n.role role_hub

unfoldable pub hub_peers : Node → List Node → List StaticPeer → List Peer
hub_peers self nodes statics =
    map hub_sees_node (keep (is_other self) nodes) ++ map hub_sees_static statics

module _ (ip6 : Ip6Text) (cidr : Prefix) (hub_endpoint : Text) where
  -- the hub as a spoke sees it: the overlay, and every subnet that another node serves
  unfoldable pub spoke_sees_hub : Node → List Node → Node → Peer
  spoke_sees_hub self nodes hub = record {
    node_id = hub.id;
    hostname = hub.name;
    role = role_hub;
    dns_name = hub.dns_name;
    overlay_ip = hub.overlay_ip;
    wg_public_key = hub.wg_pub_key;
    endpoint = hub_endpoint;
    allowed_ips =
        show_prefix ip6 (masked cidr)
        ∷ gather (λ (n : Node). n.routes_enabled) (keep (is_other self) nodes);
    keepalive_sec = keepalive;
    candidates = [];
    lock_sig = hub.lock_sig;
  }

  unfoldable pub spoke_peers : Node → List Node → Candidates → Node → List Peer
  spoke_peers self nodes candidates hub =
      spoke_sees_hub self nodes hub
      ∷ map (spoke_sees_node candidates) (keep (λ n. is_other self n && not (is_hub n)) nodes)

  module _ (mtu : ℕ) where
    abbrev netmap_self : Node → Text → NetmapSelf
    netmap_self self lock_pub = record {
      node_id = self.id;
      role = self.role;
      overlay_ip = self.overlay_ip;
      overlay_cidr = show_prefix ip6 cidr;
      dns_name = self.dns_name;
      mtu = mtu;
      lock_public_key = lock_pub;
      filter_enabled = false;
    }

    abbrev netmap_of :
        Node → List Node → List StaticPeer → Text → ℕ → List Peer → List Publish → Netmap
    netmap_of self nodes statics lock_pub version peers publishes = record {
      version = version;
      self = netmap_self self lock_pub;
      peers = peers;
      hosts = build_hosts nodes statics;
      publishes = publishes;
      filter_rules = [];
      forward_rules = [];
    }

    -- `none` is the error "no hub node registered"
    unfoldable pub build_netmap :
        Node → List Node → List StaticPeer → Candidates → List Publish → Text → ℕ → Option Netmap
    build_netmap self nodes statics candidates publishes lock_pub version =
        let nm = netmap_of self nodes statics lock_pub version in
        if is_hub self
        then some (nm (hub_peers self nodes statics) (map served publishes))
        else elim (find is_hub nodes) [
          | none ↦ none
          | some hub ↦ some (nm (spoke_peers self nodes candidates hub) [])
        ]

-- `endpointFreshness` of node.go
abbrev pub endpoint_freshness : ℕ
endpoint_freshness = 15 * minute

abbrev pub filter_capable : Node → Bool
filter_capable n = text_eq n.os (codes "linux")

-- The endpoints of a node that are fresh: the local ones, then the observed ones.
unfoldable pub fresh_candidates : ℕ → List Endpoint → Candidates
fresh_candidates now eps id =
    let fresh =
      keep
        (λ (e : Endpoint).
          text_eq e.node_id id && not (ltb endpoint_freshness (now - e.updated_at)))
        eps in
    let is_local = λ (e : Endpoint). text_eq e.kind (codes "local") in
    map (λ (e : Endpoint). e.addr) (keep is_local fresh)
    ++ map (λ (e : Endpoint). e.addr) (keep (λ e. not (is_local e)) fresh)

-- While a policy is enabled, nodes that cannot filter give no candidates and get none.
unfoldable pub withhold : Node → List Node → Candidates → Candidates
withhold node nodes candidates id =
    if not (filter_capable node)
    then []
    else if any (λ (n : Node). text_eq n.id id && not (filter_capable n)) nodes
    then []
    else candidates id

abbrev pub any_enabled : List Policy → Bool
any_enabled policies = any (λ (p : Policy). p.enabled) policies

-- The rules that go into the netmap while a policy is enabled.
unfoldable pub with_filter : Node → List Node → List StaticPeer → List Policy → Netmap → Netmap
with_filter node nodes statics policies nm =
    if any_enabled policies
    then record nm {
      self = record nm.self { filter_enabled = true };
      filter_rules = compute_filter_rules node nodes statics policies;
      forward_rules = compute_forward_rules node nodes statics policies;
    }
    else nm

abbrev pub map_netmap : (Netmap → Netmap) → Option Netmap → Option Netmap
map_netmap f none = none
map_netmap f (some nm) = some (f nm)

module _ (ip6 : Ip6Text) (cidr : Prefix) (hub_endpoint : Text) (mtu : ℕ) where
  -- `buildNetmapFor` between its reads of the store and its result: `lock_pub` is empty unless the
  -- lock is active, and `publishes` unless the node is the hub.
  unfoldable pub netmap_for :
      ℕ
      → Node
      → List Node
      → List StaticPeer
      → List Endpoint
      → List Publish
      → Text
      → List Policy
      → ℕ
      → Option Netmap
  netmap_for now node all_nodes statics eps publishes lock_pub policies version =
      let nodes = keep (λ (n : Node). n.approved) all_nodes in
      let candidates = fresh_candidates now eps in
      let given = if any_enabled policies then withhold node nodes candidates else candidates in
      map_netmap (with_filter node nodes statics policies)
        (build_netmap ip6 cidr hub_endpoint mtu node nodes statics given publishes lock_pub version)

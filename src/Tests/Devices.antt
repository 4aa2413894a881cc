-- ===== src/Tests/Devices.antt =====
-- The device of a node, its routes and its reports at concrete inputs.
use home_kai.Base.{
  ℕ, ◌*◌, Text, codes, text_eq, text_eq_refl, Bool, true, false, not, Option, none, some, ◌≡◌, refl,
  List, [], ◌∷◌, ◌++◌, keep, take, gather, map, ◌==◌, if◌then◌else◌, arith, ◌⊎◌,
}
use home_kai.Netip.{Prefix, v4, unmap, masked, show_prefix}
use home_kai.Netip.Parse.{parse_prefix}
use home_kai.Agent.Wgdev.Uapi.Hex.{hex_encode}
use home_kai.Model.{Peer, role_node, second}
use home_kai.Normalize.{sanitize_endpoints}
use home_kai.Agent.Probe.{direct, fresh_state, ProbeState, probe_managed, state_of}
use home_kai.Agent.Compose.{PeerConfig, compose_peer, parse_prefixes, chosen_path, path_of}
use home_kai.Agent.Wgdev.{DeviceConfig}
use home_kai.Agent.Wgdev.Routes.{wanted}
use home_kai.Agent.Wgdev.Routes.Synced.{InStep, IsSynced}
use home_kai.Agent.Wgdev.Linux.{Netlink, LinuxDevice, platform_up, sync_routes}
use home_kai.Agent.Wgdev.Linux.Startup.{DocumentedLinks, failed_up_leaves_no_link}
use home_kai.Agent.Wgdev.Linux.Kept.{DocumentedRoutes, dst_text, linux_laws, others}
use home_kai.Agent.Wgdev.Linux.Exact.{sync_routes-IsSynced, other_links_kept}
use home_kai.Agent.Wgdev.Uapi.{parse_uapi_peers}
use home_kai.Agent.Wgdev.Uapi.Reading.{Field, Block, line_of, block_lines, status_of_block}
use home_kai.Agent.Wgdev.Uapi.Whole.{text_of, parse_uapi_peers_exact}
use home_kai.Agent.Report.{Iface, local_endpoints}
use home_kai.Agent.Report.Accepted.{reported_endpoints_kept}
use home_kai.Agent.LocalStatus.{local_peer, direct_path, relay_path}
use home_kai.Agent.LocalStatus.Paths.{shown_path_true}
use home_kai.Tests.Data.{no_ip6, overlay}

-- A link, and the links of the routes to each destination. wgctrl cannot be opened.
abbrev Toy : Type 0
Toy = Bool × (Text → List ℕ)

abbrev del_toy : ℕ → Option Prefix → Toy → Bool × Toy
del_toy i none k = (false, k)
del_toy i (some p) k = (
  true,
  (k.0, λ t. if text_eq (dst_text no_ip6 p) t then keep (λ l. not (l == i)) (k.1 t) else k.1 t),
)

abbrev toy_netlink : Netlink
toy_netlink = record {
  Kernel = Toy;
  link_exists = λ k. k.0;
  link_del = λ k. (true, (false, k.1));
  link_add = λ mtu k. (some 7, (true, k.1));
  link_set_up = λ k. (true, k);
  open_wg = λ k. (false, k);
  close_wg = λ k. (true, k);
  configure = λ c k. (true, k);
  read_peers = λ k. none;
  addr_add = λ a bits k. (true, k);
  route_add = λ i p k. (true, k);
  route_del = del_toy;
  route_replace =
      λ i p k. (true, (k.0, λ t. if text_eq (dst_text no_ip6 p) t then i ∷ [] else k.1 t));
  route_list = λ p k. some (k.1 (dst_text no_ip6 p));
}

toy_links : DocumentedLinks toy_netlink
toy_links = record { deleted = λ k. refl; not_added = λ mtu k h. cc }

abbrev toy_routes : DocumentedRoutes toy_netlink no_ip6
toy_routes = record {
  view = λ k t. k.1 t;
  lists = λ p k links h. ground arith;
  dels = λ i p k t. ground arith;
  replaces = λ i p k h. ground (arith, text_eq_refl (dst_text no_ip6 p));
  replaces_own = λ i p k h. ground (arith, text_eq_refl (dst_text no_ip6 p));
  replace_keeps = λ i p k t h. ground (arith, h);
}

abbrev device_config : DeviceConfig
device_config = record {
  private_key = codes "k";
  listen_port = 51820;
  address = v4 1681915906;
  overlay_net = overlay;
  mtu = 1420;
}

abbrev no_routes : Toy
no_routes = (true, λ t. [])

failed_up_leaves_no_link_example :
    toy_netlink.link_exists (platform_up toy_netlink device_config no_routes).1 ≡ false
unfolding platform_up
failed_up_leaves_no_link_example = failed_up_leaves_no_link toy_links device_config no_routes refl

-- 192.168.1.0/24
abbrev lan : Prefix
lan = record { addr = v4 3232235776; bits = 24 }

-- 192.168.2.0/24
abbrev bridge : Prefix
bridge = record { addr = v4 3232236032; bits = 24 }

-- The second network is that of another link, 3.
abbrev bridged : Toy
bridged = (true, λ t. if text_eq t (codes "192.168.2.0/24") then 3 ∷ [] else [])

abbrev linux_device : LinuxDevice
linux_device = record { index = 7; routes = [] }

abbrev none_before : Text → Bool
none_before t = false

start_in_step : InStep (linux_laws toy_routes 7) none_before [] bridged
start_in_step = record { known = λ t. ground arith; extra = λ t h. cc }

sync_routes-IsSynced_example :
    IsSynced
      (linux_laws toy_routes 7)
      none_before
      (wanted no_ip6 (lan ∷ bridge ∷ []))
      (sync_routes toy_netlink no_ip6 (λ xs. xs) (lan ∷ bridge ∷ []) linux_device bridged)
unfolding wanted text_eq show_prefix masked
sync_routes-IsSynced_example =
    sync_routes-IsSynced toy_routes linux_device (λ xs. xs) none_before (lan ∷ bridge ∷ []) bridged
      (λ xs t. refl) refl start_in_step refl

other_links_kept_example :
    others toy_routes 7
      (codes "192.168.2.0/24")
      (sync_routes toy_netlink no_ip6 (λ xs. xs) (lan ∷ bridge ∷ []) linux_device bridged).kernel
    ≡ 3 ∷ []
unfolding text_eq
other_links_kept_example =
    other_links_kept toy_routes linux_device (λ xs. xs) none_before (lan ∷ bridge ∷ []) bridged
      (λ xs t. refl) refl start_in_step (codes "192.168.2.0/24") (λ p k. (_, refl))

abbrev device_fields : List Field
device_fields = (codes "listen_port", codes "51820") ∷ []

abbrev key_bytes : List ℕ
key_bytes =
    1 ∷ 2 ∷ 3 ∷ 4 ∷ 5 ∷ 6 ∷ 7 ∷ 8 ∷ 9 ∷ 10 ∷ 11 ∷ 12 ∷ 13 ∷ 14 ∷ 15 ∷ 16 ∷ 17 ∷ 18 ∷ 19 ∷ 20 ∷ 21
    ∷ 22 ∷ 23 ∷ 24 ∷ 25 ∷ 26 ∷ 27 ∷ 28 ∷ 29 ∷ 30 ∷ 31 ∷ 255 ∷ []

abbrev peer_block : Block
peer_block = record {
  key = key_bytes;
  fields =
      (codes "endpoint", codes "10.0.0.7:51820")
      ∷ (codes "last_handshake_time_sec", codes "1700000000")
      ∷ (codes "rx_bytes", codes "42")
      ∷ [];
}

parse_uapi_peers_exact_example :
    parse_uapi_peers
      (λ bs. bs)
      (text_of (map line_of device_fields ++ gather block_lines (peer_block ∷ [])))
    ≡ some (status_of_block (λ bs. bs) peer_block ∷ [])
unfolding text_eq hex_encode
parse_uapi_peers_exact_example =
    parse_uapi_peers_exact (λ bs. bs) device_fields (peer_block ∷ []) refl refl refl

-- 192.168.1.7 and a loopback address
abbrev eth0 : Iface
eth0 = record {
  name = codes "eth0";
  is_up = true;
  addrs = some (some (v4 3232235783) ∷ some (v4 2130706433) ∷ []);
}

reported_endpoints_kept_example :
    sanitize_endpoints no_ip6 overlay (local_endpoints no_ip6 51820 overlay (some (eth0 ∷ []))) 8
    ≡ take 8 (local_endpoints no_ip6 51820 overlay (some (eth0 ∷ [])))
unfolding unmap
reported_endpoints_kept_example =
    reported_endpoints_kept no_ip6 overlay 51820 (omega arith) (omega arith) (some (eth0 ∷ [])) 8
      refl (omega arith)

abbrev spoke : Peer
spoke = record {
  node_id = codes "b";
  hostname = codes "b";
  role = role_node;
  dns_name = [];
  overlay_ip = codes "100.64.0.3";
  wg_public_key = codes "KB";
  endpoint = [];
  allowed_ips = codes "100.64.0.3/32" ∷ [];
  keepalive_sec = 25;
  candidates = [];
  lock_sig = [];
}

abbrev spoke_config : PeerConfig
spoke_config = record {
  public_key = codes "KB";
  endpoint = codes "10.0.0.7:1";
  allowed_ips = record { addr = v4 1681915907; bits = 32 } ∷ [];
  keepalive = 25 * second;
}

abbrev reached : ProbeState
reached = record fresh_state { phase = direct; confirmed_endpoint = codes "10.0.0.7:1" }

shown_path_true_example :
    let shown = (local_peer role_node 9 [] ((codes "KB", reached) ∷ []) spoke).path in
    ((shown ≡ direct_path)
      × (parse_prefixes no_ip6 spoke.allowed_ips ≡ some spoke_config.allowed_ips))
    ⊎ ((shown ≡ relay_path) × (spoke_config.allowed_ips ≡ []))
unfolding compose_peer text_eq probe_managed parse_prefixes chosen_path path_of state_of
    parse_prefix
shown_path_true_example =
    shown_path_true no_ip6 (λ k. true) overlay role_node ((codes "KB", reached) ∷ []) 9 [] spoke
      spoke_config refl refl

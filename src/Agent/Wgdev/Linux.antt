-- ===== src/Agent/Wgdev/Linux.antt =====
-- internal/agent/wgdev/wgdev_linux.go: the kernel's WireGuard device. Netlink and wgctrl are the
-- parameter `Netlink`: the state of the kernel, and what their calls do to it.
pub mod Startup
pub mod Kept
pub mod Reading
pub mod Exact
use home_kai.Base.{
  ℕ, Text, Bool, true, false, not, Option, none, some, List, [], ◌∷◌, any, ltb, ◌==◌, if◌then◌else◌,
}
use home_kai.Netip.{Addr, Prefix, Ip6Text, masked}
use home_kai.Netip.Parse.{parse_prefix}
use home_kai.Agent.Compose.{PeerConfig}
use home_kai.Agent.Probe.{PeerStatus}
use home_kai.Agent.Wgdev.{DeviceConfig, WgPeerConfig, WgPeer, to_wg_peer_configs, to_peer_statuses}
use home_kai.Agent.Wgdev.Routes.{
  Step, done, skipped, failed, RouteOps, Progress, wanted, sync_wanted,
}

-- wgtypes.Config, the fields that the program sets
pub record WgConfig : Type 0 where
  pub private_key : Option Text
  pub listen_port : Option ℕ
  pub replace_peers : Bool
  pub peers : List WgPeerConfig

-- Calls on the link kai0. `link_add` takes the MTU, if one is set, and gives the index of the link;
-- `none` stands for a destination that could not be parsed.
pub record Netlink : Type 1 where
  pub Kernel : Type 0
  pub link_exists : Kernel → Bool
  pub link_del : Kernel → Bool × Kernel
  pub link_add : Option ℕ → Kernel → Option ℕ × Kernel
  pub link_set_up : Kernel → Bool × Kernel
  pub open_wg : Kernel → Bool × Kernel
  pub close_wg : Kernel → Bool × Kernel
  pub configure : WgConfig → Kernel → Bool × Kernel
  pub read_peers : Kernel → Option (List WgPeer)
  pub addr_add : Addr → ℕ → Kernel → Bool × Kernel
  pub route_add : ℕ → Prefix → Kernel → Bool × Kernel
  pub route_del : ℕ → Option Prefix → Kernel → Bool × Kernel
  pub route_replace : ℕ → Prefix → Kernel → Bool × Kernel
  pub route_list : Prefix → Kernel → Option (List ℕ)

pub record LinuxDevice : Type 0 where
  pub index : ℕ
  pub routes : List Text

module _ (nl : Netlink) where
  open nl use {Kernel}

  abbrev pub cleanup : Kernel → Kernel
  cleanup k = (nl.link_del k).1

  -- Steps of which one that fails closes wgctrl and deletes the link.
  unfoldable pub run_steps : List (Kernel → Bool × Kernel) → Kernel → Bool × Kernel
  run_steps [] k = (true, k)
  run_steps (f ∷ fs) k = elim (f k).0 [
    | true ↦ run_steps fs (f k).1
    | false ↦ (false, cleanup (nl.close_wg (f k).1).1)
  ]

  abbrev pub set_identity : DeviceConfig → WgConfig
  set_identity cfg = record {
    private_key = some cfg.private_key;
    listen_port = some cfg.listen_port;
    replace_peers = false;
    peers = [];
  }

  abbrev pub device_steps : DeviceConfig → ℕ → List (Kernel → Bool × Kernel)
  device_steps cfg index =
      nl.configure (set_identity cfg)
      ∷ nl.addr_add cfg.address 32
      ∷ nl.link_set_up
      ∷ nl.route_add index (masked cfg.overlay_net)
      ∷ []

  abbrev pub brought_up : ℕ → Bool × Kernel → Option LinuxDevice × Kernel
  brought_up index (true, k) = (some (record { index = index; routes = [] }), k)
  brought_up index (false, k) = (none, k)

  abbrev pub with_wg : DeviceConfig → ℕ → Bool × Kernel → Option LinuxDevice × Kernel
  with_wg cfg index (false, k) = (none, cleanup k)
  with_wg cfg index (true, k) = brought_up index (run_steps (device_steps cfg index) k)

  abbrev pub with_link : DeviceConfig → Option ℕ × Kernel → Option LinuxDevice × Kernel
  with_link cfg (none, k) = (none, k)
  with_link cfg (some index, k) = with_wg cfg index (nl.open_wg k)

  unfoldable pub platform_up : DeviceConfig → Kernel → Option LinuxDevice × Kernel
  platform_up cfg k =
      let clear = if nl.link_exists k then (nl.link_del k).1 else k in
      with_link cfg (nl.link_add (if ltb 0 cfg.mtu then some cfg.mtu else none) clear)

  -- A listing that fails reports no conflict.
  unfoldable pub route_conflict : ℕ → Prefix → Kernel → Bool
  route_conflict index p k = elim (nl.route_list p k) [
    | none ↦ false
    | some links ↦ any (λ l. not (l == index)) links
  ]

  abbrev pub replaced : Bool × Kernel → Step × Kernel
  replaced (ok, k) = (if ok then done else failed, k)

  -- the body of the second loop of SyncRoutes
  unfoldable pub add_route : Ip6Text → ℕ → Text → Kernel → Step × Kernel
  add_route ip6 index s k = elim (parse_prefix ip6 s) [
    | none ↦ (failed, k)
    | some p ↦
        if route_conflict index p k then (skipped, k) else replaced (nl.route_replace index p k)
  ]

  abbrev pub route_ops : Ip6Text → ℕ → RouteOps
  route_ops ip6 index = record {
    Kernel = Kernel;
    del = λ s. nl.route_del index (parse_prefix ip6 s);
    add = add_route ip6 index;
  }

  unfoldable pub sync_routes :
      Ip6Text → (List Text → List Text) → List Prefix → LinuxDevice → Kernel → Progress Kernel
  sync_routes ip6 order prefixes d k =
      sync_wanted (route_ops ip6 d.index) order (wanted ip6 prefixes) d.routes k

  unfoldable pub apply_peers : (Text → Option Text) → List PeerConfig → Kernel → Bool × Kernel
  apply_peers resolve peers k = elim (to_wg_peer_configs resolve peers) [
    | none ↦ (false, k)
    | some cfgs ↦
        nl.configure
          (record { private_key = none; listen_port = none; replace_peers = true; peers = cfgs }) k
  ]

  unfoldable pub set_private_key : Text → Kernel → Bool × Kernel
  set_private_key key k =
      nl.configure
        (record { private_key = some key; listen_port = none; replace_peers = false; peers = [] }) k

  unfoldable pub read_statuses : Kernel → Option (List PeerStatus)
  read_statuses k = elim (nl.read_peers k) [ none ↦ none | some ps ↦ some (to_peer_statuses ps) ]

  unfoldable pub close : Kernel → Bool × Kernel
  close k = let r = nl.link_del k in let c = nl.close_wg r.1 in (if r.0 then c.0 else false, c.1)

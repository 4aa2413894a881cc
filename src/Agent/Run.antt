-- ===== src/Agent/Run.antt =====
-- internal/agent/agent.go: what a node does with a netmap, and the loop that asks for netmaps. The
-- device, the file system, the sockets and iptables are parameters.
pub mod Backoff
pub mod Apply
pub mod Locked
use home_kai.Base.{
  ℕ, ◌+◌, ◌*◌, ◌/◌, Text, text_eq, Bool, true, false, not, is_empty, ◌&&◌, Option, none, some, List,
  [], ◌∷◌, ltb, if◌then◌else◌,
}
use home_kai.Netip.{Prefix, Ip6Text}
use home_kai.Netip.Parse.{parse_prefix}
use home_kai.Model.{Netmap, role_hub, second}
use home_kai.Agent.Lock.{Crypto, enforce_lock}
use home_kai.Agent.Probe.{Probes, sync_probes}
use home_kai.Agent.Compose.{PeerConfig, compose_peers}
use home_kai.Agent.Iptables.{Iptables}
use home_kai.Agent.Firewall.{Router, sync_filter}
use home_kai.Agent.HostsFile.{HostsFiles, sync_hosts}
use home_kai.Agent.Publish.{Targets, sync_publishes}
use home_kai.Agent.Dns.{Records, set_hosts}

-- The device, and what the calls of it do.
pub record Device : Type 1 where
  pub State : Type 0
  pub apply_peers : List PeerConfig → State → Bool × State
  pub sync_routes : List Prefix → State → State

-- What the agent reads of its state, and the libraries and calls that it rests on. `saves` tells
-- whether the state file is written, `listen` and `write` are those of Publish and HostsFile.
pub record Site (dev : Device) (ipt : Iptables) : Type 0 where
  pub crypto : Crypto
  pub ip6 : Ip6Text
  pub valid_key : Text → Bool
  pub lower : ℕ → ℕ
  pub listen : ℕ → Bool
  pub write : Text → Bool × Option Text
  pub renamed : Bool
  pub removed : Bool
  pub saves : Bool
  pub role : Text
  pub run_overlay : Option Prefix  -- what Run has parsed of the state
  pub overlay_cidr : Text  -- of the state
  pub router : Router
  pub no_hosts : Bool

pub record Agent (dev : Device) (ipt : Iptables) : Type 0 where
  pub pinned : Text
  pub current : Option Netmap
  pub probes : Probes
  pub device : dev.State
  pub hosts : HostsFiles
  pub forwarders : Targets
  pub records : Records
  pub last_filter : Text
  pub firewall : ipt.Kernel
  -- the netmap of the state, and that of the state file
  pub cached : Option Netmap
  pub stored : Option Netmap

module _ {dev : Device} {ipt : Iptables} (site : Site dev ipt) where
  abbrev pub sync_services : Netmap → Agent dev ipt → Agent dev ipt
  sync_services nm a =
      if text_eq site.role role_hub
      then record a {
        forwarders = sync_publishes site.listen nm.publishes a.forwarders;
        records = if site.router.has_dns then set_hosts site.lower site.ip6 nm.hosts else a.records;
      }
      else a

  abbrev pub apply_filter_of : Netmap → Agent dev ipt → Agent dev ipt
  apply_filter_of nm a =
      let r = sync_filter ipt site.router nm a.last_filter a.firewall in
      record a { last_filter = r.0; firewall = r.1 }

  -- `fresh` tells that the netmap is not the one of the state.
  abbrev pub cache_netmap : Bool → Netmap → Agent dev ipt → Agent dev ipt
  cache_netmap fresh nm a =
      if fresh
      then record a { cached = some nm; stored = if site.saves then some nm else a.stored }
      else a

  -- From the routes on, nothing fails any more.
  unfoldable pub settle : Bool → Netmap → List Prefix → Agent dev ipt → Agent dev ipt
  settle fresh nm routes a =
      let b = record a { device = dev.sync_routes routes a.device } in
      let c = record b {
        hosts = sync_hosts site.write site.renamed site.removed site.no_hosts nm.hosts b.hosts;
      } in
      cache_netmap fresh nm (apply_filter_of nm (sync_services nm c))

  unfoldable pub install :
      Bool → Netmap → List PeerConfig × List Prefix → Agent dev ipt → Bool × Agent dev ipt
  install fresh nm composed a =
      let r = dev.apply_peers composed.0 a.device in
      let b = record a { device = r.1 } in
      if r.0 then (true, settle fresh nm composed.1 b) else (false, b)

  -- What comes behind the lock, on a netmap with the peers that are left.
  unfoldable pub take_netmap : Prefix → ℕ → Bool → Netmap → Agent dev ipt → Bool × Agent dev ipt
  take_netmap overlay now fresh nm a =
      let probes = sync_probes site.ip6 site.role now nm.peers a.probes in
      let b = record a { current = some nm; probes = probes } in
      elim (compose_peers site.ip6 site.valid_key overlay site.role probes nm.peers) [
        | none ↦ (false, b)
        | some composed ↦ install fresh nm composed b
      ]

  -- Pinning a key writes the state file, with the netmap that the state holds.
  abbrev pub store_pin : Text → Agent dev ipt → Text → Agent dev ipt
  store_pin offered a pinned =
      if is_empty pinned && not (is_empty offered) && site.saves
      then record a { stored = a.cached }
      else a

  -- enforceLock takes peers out of the netmap that it is given: when that is the one of the state,
  -- the state has it with the peers that are left.
  abbrev pub share_netmap : Bool → Netmap → Agent dev ipt → Agent dev ipt
  share_netmap fresh nm a = if fresh then a else record a { cached = some nm }

  -- the overlay that Run has set, or else that of the state
  unfoldable pub overlay_of : Option Prefix
  overlay_of = elim site.run_overlay [
    | some overlay ↦ some overlay
    | none ↦ parse_prefix site.ip6 site.overlay_cidr
  ]

  -- What comes behind the overlay. Without `fresh`, `nm` is the netmap of the state.
  unfoldable pub apply_within : Prefix → ℕ → Bool → Netmap → Agent dev ipt → Bool × Agent dev ipt
  apply_within overlay now fresh nm a =
      let r = enforce_lock site.crypto site.saves a.pinned nm.self.lock_public_key nm.peers in
      let b = store_pin nm.self.lock_public_key (record a { pinned = r.0 }) a.pinned in
      elim r.1 [
        | none ↦ (false, b)
        | some peers ↦
            let left = record nm { peers = peers } in
            take_netmap overlay now fresh left (share_netmap fresh left b)
      ]

  unfoldable pub apply_netmap : ℕ → Bool → Netmap → Agent dev ipt → Bool × Agent dev ipt
  apply_netmap now fresh nm a = elim overlay_of [
    | none ↦ (false, a)
    | some overlay ↦ apply_within overlay now fresh nm a
  ]

abbrev pub backoff_max : ℕ
backoff_max = 60 * second

-- What asking for a netmap may come to, at a time: an error, 304, or a netmap.
pub data Poll : Type 0 where
  failed : (jitter : ℕ) → Poll
  unchanged : Poll
  arrived : (now : ℕ) (nm : Netmap) → Poll

-- How long the loop waits behind a failure; the jitter is below backoff/2 + 1.
unfoldable pub wait_for : ℕ → ℕ → ℕ
wait_for backoff jitter = backoff + jitter

unfoldable pub next_backoff : ℕ → Poll → ℕ
next_backoff backoff (failed jitter) =
    if ltb (backoff * 2) backoff_max then backoff * 2 else backoff_max
next_backoff backoff unchanged = second
next_backoff backoff (arrived now nm) = second

-- the version that the next call asks to be beaten
unfoldable pub since : Option Netmap → ℕ
since none = 0
since (some nm) = nm.version

module _ {dev : Device} {ipt : Iptables} (site : Site dev ipt) where
  unfoldable pub take_poll : Poll → Agent dev ipt → Agent dev ipt
  take_poll (failed jitter) a = a
  take_poll unchanged a = a
  take_poll (arrived now nm) a = (apply_netmap site now true nm a).1

  -- syncLoop, over what its calls come to
  unfoldable pub sync_loop : List Poll → ℕ → Agent dev ipt → ℕ × Agent dev ipt
  sync_loop [] backoff a = (backoff, a)
  sync_loop (p ∷ ps) backoff a = sync_loop ps (next_backoff backoff p) (take_poll p a)

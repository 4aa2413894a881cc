-- ===== src/Tests/Daemon.antt =====
-- The resolver, the hosts file, the forwarders, the keys and the loop of an agent at concrete inputs.
use home_kai.Base.{
  ℕ, ◌+◌, Text, codes, text_eq, has_suffix, ◌^◌, Bool, true, false, ◌&&◌, ◌||◌, Option, none, some,
  ◌≡◌, refl, ◌⊎◌, List, [], ◌∷◌, ◌++◌, map, all, leb, ◌==◌, arith, if◌then◌else◌,
}
use home_kai.Netip.{v4}
use home_kai.Model.{HostEntry, Publish, Netmap, Peer, role_node}
use home_kai.Netip.Parse.{parse_addr}
use home_kai.Text.{slug}
use home_kai.Hosts.{sanitize_host_label, free_label, add_hosts, build_hosts}
use home_kai.Agent.Dns.{type_a, address, set_hosts, handle}
use home_kai.Agent.Dns.Names.{host_resolves}
use home_kai.Agent.HostsFile.{has_prefix, strip_managed_block, next_hosts, end_line, index}
use home_kai.Agent.HostsFile.Block.{hosts_roundtrip}
use home_kai.Agent.Publish.{sync_publishes}
use home_kai.Agent.Publish.Running.{runs, last_target, is_target, sync_publishes_exact}
use home_kai.Agent.Rekey.{
  Keys, accepted, Outcome, rotate_key, check_rotation, start_rekey_loop, restart,
}
use home_kai.Agent.Rekey.Steps.{
  in_step, Check, run_checks, rotate_key_exact, start_heals, unsaved_rotation_sticks,
}
use home_kai.Agent.Iptables.{Iptables}
use home_kai.Agent.Run.{Device, Site, Agent, apply_netmap, apply_within, overlay_of, take_netmap}
use home_kai.Agent.Run.Apply.{IsContained, failed_apply_keeps}
use home_kai.Agent.Run.Locked.{Installed, locked_device}
use home_kai.Agent.Compose.{PeerConfig, compose_peer, compose_peers}
use home_kai.Agent.Lock.{enforce_lock, filter_peers, is_signed, lock_message}
use home_kai.Agent.Lock.Pinning.{is_signed_by}
use home_kai.Tests.Data.{no_ip6, toy_crypto, overlay, network, phone}

-- unicode.ToLower on ASCII, and no more
abbrev ascii_lower : ℕ → ℕ
ascii_lower c = if leb b'A' c && leb c b'Z' then c + 32 else c

abbrev unreachable : Bool → Text → Option Text
unreachable tcp up = none

abbrev phone_host : HostEntry
phone_host = record { name = codes "phone.kai"; ip = codes "100.64.0.4" }

host_resolves_example :
    handle ascii_lower
      (set_hosts ascii_lower no_ip6 (build_hosts network (phone ∷ [])))
      unreachable
      false
      (record { name = codes "Phone.kai."; qtype = type_a } ∷ [])
    ≡ some (address (codes "Phone.kai.") 300 (v4 1681915908))
unfolding build_hosts add_hosts free_label sanitize_host_label slug text_eq parse_addr
host_resolves_example =
    host_resolves ascii_lower (λ c h. refl) no_ip6 unreachable false network (phone ∷ []) 3
      phone_host (v4 1681915908) (codes "Phone.kai.") [] refl refl refl

abbrev old_file : Text
old_file = codes "127.0.0.1 localhost"

hosts_roundtrip_example :
    strip_managed_block (next_hosts (phone_host ∷ []) old_file)
    ≡ end_line (strip_managed_block old_file)
unfolding strip_managed_block end_line index has_prefix has_suffix text_eq
hosts_roundtrip_example = hosts_roundtrip (phone_host ∷ []) old_file refl refl

abbrev make_publish : ℕ → Text → Publish
make_publish port target = record {
  id = codes "p";
  name = codes "web";
  listen_port = port;
  target = target;
  created_at = 1;
}

abbrev only_8080 : ℕ → Bool
only_8080 port = port == 8080

sync_publishes_exact_example :
    runs 8080 (codes "b.kai:80") (
      sync_publishes only_8080
        (make_publish 8080 (codes "b.kai:80") ∷ [])
        ((8080, codes "a.kai:80") ∷ []))
    ≡ (is_target (last_target 8080 (make_publish 8080 (codes "b.kai:80") ∷ [])) (codes "b.kai:80")
        && (runs 8080 (codes "b.kai:80") ((8080, codes "a.kai:80") ∷ []) || only_8080 8080))
sync_publishes_exact_example =
    sync_publishes_exact only_8080 8080 (codes "b.kai:80")
      (make_publish 8080 (codes "b.kai:80") ∷ []) ((8080, codes "a.kai:80") ∷ [])

-- The public key of a private one is the same text here.
abbrev same_key : Text → Text
same_key k = k

abbrev keys : Keys
keys = record {
  held = codes "one";
  held_since = some 1;
  saved = codes "one";
  saved_since = some 1;
  live = codes "one";
  registered = codes "one";
}

abbrev unsaved : Outcome
unsaved = record { generated = some (codes "two"); call = accepted; saves = false; sets = true }

rotate_key_exact_example : in_step same_key (rotate_key same_key 5 unsaved keys).1 ≡ false
unfolding text_eq
rotate_key_exact_example = rotate_key_exact same_key 5 unsaved (codes "two") keys refl refl refl

unsaved_rotation_sticks_example :
    let after = (rotate_key same_key 5 unsaved keys).1 in
    (in_step same_key after ≡ false) × (check_rotation same_key 30 false 6 unsaved after ≡ after)
unfolding text_eq
unsaved_rotation_sticks_example =
    unsaved_rotation_sticks same_key 30 5 6 false unsaved unsaved (codes "two") keys refl refl refl
      refl (omega arith) (omega arith)

abbrev whole : Outcome
whole = record { generated = some (codes "three"); call = accepted; saves = true; sets = true }

abbrev late_check : Check
late_check = record { locked = false; now = 10 ^ 18; outcome = whole }

start_heals_example :
    in_step same_key (
      run_checks same_key 30 (late_check ∷ []) (
        start_rekey_loop same_key 7 accepted true (restart (rotate_key same_key 5 unsaved keys).1)))
    ≡ true
start_heals_example =
    start_heals same_key 7 true 30 (late_check ∷ []) (rotate_key same_key 5 unsaved keys).1 refl

-- A device that takes every list of peers, and notes what it was given.
abbrev toy_device : Device
toy_device = record {
  State = List PeerConfig;
  apply_peers = λ peers d. (true, peers);
  sync_routes = λ routes d. d;
}

abbrev toy_iptables : Iptables
toy_iptables = record { Kernel = Bool; run = λ args k. (true, k) }

abbrev site : Site toy_device toy_iptables
site = record {
  crypto = toy_crypto;
  ip6 = no_ip6;
  valid_key = λ k. true;
  lower = ascii_lower;
  listen = only_8080;
  write = λ next. (true, some next);
  renamed = true;
  removed = true;
  saves = true;
  role = role_node;
  run_overlay = some overlay;
  overlay_cidr = codes "100.64.0.0/30";
  router = record {
    iface = codes "kai0";
    overlay_cidr = codes "100.64.0.0/30";
    is_hub = false;
    has_dns = false;
    advertise_routes = [];
  };
  no_hosts = false;
}

abbrev lock_key : Text
lock_key = codes "0123456789abcdef0123456789abcdef"

abbrev agent : Agent toy_device toy_iptables
agent = record {
  pinned = lock_key;
  current = none;
  probes = [];
  device = [];
  hosts = record { hosts = some old_file; tmp = none };
  forwarders = [];
  records = [];
  last_filter = [];
  firewall = false;
  cached = none;
  stored = none;
}

abbrev make_netmap : Text → Netmap
make_netmap offered = record {
  version = 3;
  self = record {
    node_id = codes "a";
    role = role_node;
    overlay_ip = codes "100.64.0.2";
    overlay_cidr = codes "100.64.0.0/30";
    dns_name = [];
    mtu = 1420;
    lock_public_key = offered;
    filter_enabled = false;
  };
  peers =
      record {
        node_id = codes "b";
        hostname = codes "b";
        role = role_node;
        dns_name = [];
        overlay_ip = codes "100.64.0.3";
        wg_public_key = codes "KB";
        endpoint = codes "10.0.0.1:51820";
        allowed_ips = codes "100.64.0.3/32" ∷ [];
        keepalive_sec = 25;
        candidates = [];
        lock_sig = lock_key ++ codes "kai-lock-v1|KB|100.64.0.3";
      }
      ∷ [];
  hosts = [];
  publishes = [];
  filter_rules = [];
  forward_rules = [];
}

-- The state has a netmap with a peer that nobody signed, and no key of a peer is well formed.
abbrev cached_netmap : Netmap
cached_netmap =
    let nm = make_netmap lock_key in
    record nm { peers = map (λ (p : Peer). record p { lock_sig = [] }) nm.peers ++ nm.peers }

abbrev caching_agent : Agent toy_device toy_iptables
caching_agent = record agent { cached = some cached_netmap; stored = some cached_netmap }

abbrev refusing_site : Site toy_device toy_iptables
refusing_site = record site { valid_key = λ k. false }

failed_apply_keeps_example :
    IsContained refusing_site false cached_netmap
      (apply_netmap refusing_site 9 false cached_netmap caching_agent).1
      caching_agent
unfolding apply_netmap apply_within overlay_of take_netmap enforce_lock filter_peers is_signed
    lock_message compose_peers compose_peer text_eq
failed_apply_keeps_example =
    failed_apply_keeps refusing_site 9 false cached_netmap caching_agent refl

locked_device_example :
    let after = (apply_netmap site 9 true (make_netmap lock_key) agent).1 in
    (after.device ≡ [])
    ⊎ ((peers : List Peer) × (all (is_signed_by toy_crypto lock_key) peers ≡ true)
        × Installed site peers [] after.device)
locked_device_example = locked_device site 9 true (make_netmap lock_key) agent refl

-- ===== src/Tests/Coordinator.antt =====
-- The coordinator's store, sessions, tokens, addresses and input checks at concrete inputs.
use home_kai.Base.{
  ℕ, ◌+◌, ◌-◌, ◌*◌, ◌/◌, ◌≤◌, Text, codes, text_eq, true, false, not, none, some, ◌≡◌, refl, List,
  [], ◌∷◌, ltb, arith,
}
use home_kai.Base.Int.{pos}
use home_kai.Netip.{v4, block4, show_prefix}
use home_kai.Ipam.{allocate_ip, broadcast_addr, hub_ip}
use home_kai.Ipam.Lowest.{IsLowestFree, allocate_ip-IsLowestFree}
use home_kai.Normalize.{normalize_routes}
use home_kai.Normalize.Routes.{IsNormalized, normalize_routes-IsNormalized}
use home_kai.Store.Exec.{World, ok, err, ◌>>=◌, pure, catch, sql}
use home_kai.Store.Calls.{nodes, allocated_ips, bump_netmap_version, add_event}
use home_kai.Store.Rows.{enroll_node, append_event, trim_events}
use home_kai.Store.Outcomes.{is_ok}
use home_kai.Server.Sound.Once.{enroll_once}
use home_kai.Server.Admin.{PolicyRequest}
use home_kai.Server.Routes.{Request, token_create, Caller, policy_create, publish_delete, respond}
use home_kai.Server.Sound.{is_sound}
use home_kai.Server.Sound.Reach.{starts, serves, Reach-is_sound}
use home_kai.Server.Enroll.{EnrollRequest, token_expires, handle_enroll, overlay_ip_for}
use home_kai.Server.Enroll.Tokens.{token_expires_wraps}
use home_kai.Server.Sessions.{
  session_ttl, has_admin_session, add_session, handle_admin_logout, admin_token_matches, with_admin,
}
use home_kai.Server.Sessions.Lifetime.{session_lifetime, logged_out_refused}
use home_kai.Server.{
  allocate, Config, unauthorized, bump_netmap, require, or_fail, internal, notify_netmap_changed,
  log_event,
}
use home_kai.Server.Names.{Provider, backfill_dns}
use home_kai.Server.Names.Backfill.Named.{all_named, backfill_dns-all_named}
use home_kai.Server.Addresses.{IsFresh, allocate-IsFresh}
use home_kai.Server.Wakes.{IsBump, bump_netmap-IsBump}
use home_kai.Server.Lock.Arming.{all_unsigned, armed, rearm_clears, arm_keeps}
use home_kai.Tests.Data.{no_ip6, toy_env, overlay, stored, world}

session_lifetime_example :
    (has_admin_session toy_env
      (codes "1")
      (some (codes "s"))
      7
      (add_session (codes "s") 5 world).1).0
    ≡ ok (not (ltb (5 + session_ttl) 7))
session_lifetime_example = session_lifetime toy_env (codes "1") (codes "s") 5 7 world refl refl

-- About 317 years.
token_expires_wraps_example : token_expires 5 (pos 10000000000) ≤ 5
token_expires_wraps_example = token_expires_wraps 5 10000000000 (omega arith) (omega arith)

allocate_ip-IsLowestFree_example :
    let low = 1681915905 / block4 30 * block4 30 in
    IsLowestFree no_ip6
      (codes "100.64.0.1" ∷ [])
      low
      (low + block4 30 - 1)
      (allocate_ip no_ip6 (record { addr = v4 1681915905; bits = 30 }) (codes "100.64.0.1" ∷ []))
allocate_ip-IsLowestFree_example =
    allocate_ip-IsLowestFree no_ip6 (codes "100.64.0.1" ∷ []) 1681915905 30 (omega arith)
      (omega arith)

abbrev raw_tags : List Text
raw_tags = codes "Web Server" ∷ codes "db" ∷ codes "DB" ∷ codes "!" ∷ []

abbrev raw_routes : List Text
raw_routes = codes "10.1.2.3/16" ∷ codes "10.1.0.0/16" ∷ codes "192.168.0.0/24" ∷ []

normalize_routes-IsNormalized_example :
    IsNormalized no_ip6 overlay raw_routes (normalize_routes no_ip6 overlay raw_routes)
normalize_routes-IsNormalized_example = normalize_routes-IsNormalized no_ip6 overlay raw_routes

abbrev raw_endpoints : List Text
raw_endpoints = codes "127.0.0.1:1" ∷ codes "10.0.0.7:51820" ∷ codes "10.0.0.8:51820" ∷ []

-- A key of 32 code points.
abbrev lock_key : Text
lock_key = codes "0123456789abcdef0123456789abcdef"

rearm_clears_example :
    (all_unsigned (armed toy_env lock_key 5 0 [] stored (some (codes "old"))) ≡ true)
    × ((armed toy_env lock_key 5 0 [] stored (some (codes "old"))).lock_pubkey ≡ some lock_key)
unfolding text_eq
rearm_clears_example =
    rearm_clears toy_env lock_key 5 0 [] stored lock_key (codes "old") refl refl refl refl

arm_keeps_example :
    ((armed toy_env lock_key 5 0 [] stored none).nodes ≡ stored.nodes)
    × ((armed toy_env lock_key 5 0 [] stored none).statics ≡ stored.statics)
    × ((armed toy_env lock_key 5 0 [] stored none).lock_pubkey ≡ some lock_key)
arm_keeps_example = arm_keeps toy_env lock_key 5 0 [] stored lock_key refl refl

bump_netmap-IsBump_example : IsBump world (bump_netmap world).0 (bump_netmap world).1
bump_netmap-IsBump_example = bump_netmap-IsBump world

abbrev config : Config
config = record {
  hub_endpoint = codes "hub:51820";
  overlay_cidr = overlay;
  mtu = 1420;
  admin_token_hash = codes "secret";
  require_approval = false;
  reserved_ports = [];
}

logged_out_refused_example :
    let w = (handle_admin_logout toy_env (some (codes "s")) world).1 in
    let (r, after) =
      with_admin toy_env config (codes "guess") (codes "1") (some (codes "s")) 7 bump_netmap w in
    (r ≡ err unauthorized) × (after.db ≡ world.db)
unfolding admin_token_matches text_eq
logged_out_refused_example =
    logged_out_refused toy_env config (codes "guess") (codes "1") (codes "s") 7 bump_netmap world
      refl

allocate-IsFresh_example : IsFresh toy_env config world.db (allocate toy_env config world).0
allocate-IsFresh_example =
    allocate-IsFresh toy_env config world 1681915904 30 refl (omega arith) (omega arith)

-- The same letter at each draw; every name is accepted.
abbrev toy_provider : Provider ℕ
toy_provider = record {
  random = λ bound s. (some 7, s);
  ensure_a = λ fqdn ip s. (true, s + 1);
  delete_a = λ fqdn s. (true, s);
}

backfill_dns-all_named_example :
    all_named (backfill_dns toy_provider (codes "kai.net") 0 world).1.db ≡ true
backfill_dns-all_named_example =
    backfill_dns-all_named toy_provider (codes "kai.net") 0 world
      (record { draws = λ s. (7, refl); accepts = λ fqdn ip s. refl }) refl refl

abbrev caller : Caller
caller = record { token = codes "secret"; header = []; cookie = none }

abbrev ssh_request : PolicyRequest
ssh_request = record {
  name = codes "ssh";
  src_tags = codes "dev" ∷ [];
  dst_tags = codes "srv" ∷ [];
  protocol = codes "tcp";
  ports = codes "22" ∷ [];
  enabled = true;
}

abbrev ssh_asked : World
ssh_asked =
    (respond toy_env config (λ t. none) 5 caller
      (policy_create (some ssh_request) (some (codes "1"))) world).1

-- 100.64.0.0/29, since the two nodes fill the other overlay
abbrev wide_config : Config
wide_config = record config { overlay_cidr = record { addr = v4 1681915904; bits = 29 } }

abbrev desktop_request : EnrollRequest
desktop_request = record {
  hostname = codes "desktop";
  os = codes "linux";
  arch = codes "amd64";
  role = [];
  wg_public_key = codes "KD";
  wg_listen_port = pos 51820;
}

-- The desktop enrolls with the token of `stored`.
abbrev enrolled : World
enrolled =
    (handle_enroll toy_env wide_config (codes "t") (some desktop_request) (some (codes "l"))
      (some (codes "x")) [] 10 world).1

-- The administrator makes another token.
abbrev another_token : Request
another_token = token_create (some (record { ttl_sec = pos 60; name_hint = [] })) (some (codes "u"))

desktop_enrolls :
    is_ok
      (handle_enroll toy_env wide_config
        (codes "t")
        (some desktop_request)
        (some (codes "l"))
        (some (codes "x"))
        []
        10
        world).0
    ≡ true
unfolding handle_enroll text_eq ◌>>=◌ require pure or_fail internal catch nodes sql overlay_ip_for
    allocate allocated_ips allocate_ip broadcast_addr hub_ip enroll_node bump_netmap
    notify_netmap_changed bump_netmap_version log_event add_event append_event trim_events
    show_prefix
desktop_enrolls = refl

enroll_once_example :
    is_ok
      (handle_enroll toy_env wide_config
        (codes "t")
        (some desktop_request)
        (some (codes "m"))
        (some (codes "y"))
        []
        20
        (respond toy_env wide_config (λ t. none) 15 caller another_token enrolled).1).0
    ≡ false
unfolding handle_enroll is_sound text_eq
enroll_once_example =
    enroll_once toy_env wide_config (λ t. none) (codes "t") (some desktop_request)
      (some (codes "l")) (some (codes "x")) [] 10 world
      (respond toy_env wide_config (λ t. none) 15 caller another_token enrolled).1 refl
      desktop_enrolls (serves 15 caller another_token starts) (some desktop_request)
      (some (codes "m")) (some (codes "y")) [] 20

Reach-is_sound_example :
    is_sound []
      (respond toy_env config (λ t. none) 6 caller (publish_delete (codes "pub")) ssh_asked).1.db
    ≡ true
unfolding is_sound text_eq
Reach-is_sound_example =
    Reach-is_sound toy_env config (λ t. none) refl
      (serves 6 caller (publish_delete (codes "pub"))
        (serves 5 caller (policy_create (some ssh_request) (some (codes "1"))) starts))

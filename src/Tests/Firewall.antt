-- ===== src/Tests/Firewall.antt =====
-- The firewall of an agent and the traffic of a network at concrete inputs.
use home_kai.Base.{
  Text, codes, text_eq, Bool, true, false, not, ◌&&◌, ◌||◌, Option, none, some, ◌≡◌, refl, ap, ◌⊎◌,
  ℕ, List, [], ◌∷◌, ◌++◌, any, all, take, if◌then◌else◌,
}
use home_kai.Netip.{Addr, v4, contains}
use home_kai.Netip.Parse.{parse_prefix}
use home_kai.Netmap.{with_filter}
use home_kai.Model.{Node, FilterRule, ForwardRule, Netmap, role_hub}
use home_kai.Acl.{acl_sources, forward_dsts, match_tag}
use home_kai.Acl.Inbound
use home_kai.Acl.Forward
use home_kai.Agent.Filterspec.{
  Spec, filter_chain_specs, forward_chain_specs, filter_specs, forward_specs, proto_port_args,
  chunks,
}
use home_kai.Agent.Filterspec.Verdicts.{Packet, verdict, proto_ok}
use home_kai.Agent.Iptables.{
  Iptables, filter_table, run_rule, each, ensure, rebuild_filter_chain, rebuild_enabled, Hook,
}
use home_kai.Agent.Iptables.Laws.{Documented, has, same_spec, map_chain, delete_first}
use home_kai.Traffic.{asks_resolver, packet, inbound_traffic, forwarded_traffic}
use home_kai.Tests.Data.{no_ip6, hub, server, network, phone, dev_to_srv}
use home_kai.Agent.Firewall.Enforced.{filter_applied, forward_applied}
use home_kai.Agent.Iptables.Rebuild.{rebuild_stops}
use home_kai.Agent.Firewall.{
  Router, filter_chain, forward_filter_chain, input_hooks, forward_hooks, pick_forward_chain,
  apply_filter, inbound_rules,
}

-- An iptables that keeps its chains as a function of the table and the name. A command succeeds when
-- its chain is there, and -N when it is not.
abbrev Chains : Type 0
Chains = Text → Text → Option (List Spec)

abbrev at : Text → Text → (Option (List Spec) → Option (List Spec)) → Chains → Chains
at t c f k t' c' = if text_eq t t' && text_eq c c' then f (k t' c') else k t' c'

abbrev is_there : Option (List Spec) → Bool
is_there none = false
is_there (some specs) = true

abbrev change :
    Bool → Text → Text → (Option (List Spec) → Option (List Spec)) → Chains → Bool × Chains
change ok t c f k = (ok, if ok then at t c f k else k)

abbrev command : Text → Text → Text → Spec → Chains → Bool × Chains
command op t c spec k =
    if text_eq op (codes "-C")
    then (has spec (k t c), k)
    else if text_eq op (codes "-I")
    then change (is_there (k t c)) t c (map_chain (λ ss. spec ∷ ss)) k
    else if text_eq op (codes "-A")
    then change (is_there (k t c)) t c (map_chain (λ ss. ss ++ spec ∷ [])) k
    else if text_eq op (codes "-D")
    then change (has spec (k t c)) t c (map_chain (delete_first spec)) k
    else if text_eq op (codes "-N")
    then change (not (is_there (k t c))) t c (λ o. some []) k
    else if text_eq op (codes "-F")
    then change (is_there (k t c)) t c (λ o. some []) k
    else if text_eq op (codes "-X")
    then change (is_there (k t c)) t c (λ o. none) k
    else (is_there (k t c), k)

abbrev run_toy : List Text → Chains → Bool × Chains
run_toy (flag ∷ t ∷ op ∷ c ∷ spec) k = command op t c spec k
run_toy _ k = (false, k)

abbrev toy_iptables : Iptables
toy_iptables = record { Kernel = Chains; run = run_toy }

changed :
    (ok : Bool) (t c : Text) (f : Option (List Spec) → Option (List Spec)) (k : Chains)
    (t' c' : Text)
    → (change ok t c f k).1 t' c'
      ≡ (if ok && (text_eq t t' && text_eq c c') then f (k t' c') else k t' c')
changed true t c f k t' c' = refl
changed false t c f k t' c' = refl

abbrev toy_iptables_documented : Documented toy_iptables
unfolding text_eq run_rule
toy_iptables_documented = record {
  view = λ k. k;
  checks = λ r k. refl;
  check_keeps = λ r k t c. refl;
  inserts = λ r k t c.
      changed (is_there (k r.table r.chain)) r.table r.chain (map_chain (λ ss. r.spec ∷ ss)) k t c;
  insert_finds_chain = λ r k h. ap is_there h;
  deletes = λ r k t c.
      changed (has r.spec (k r.table r.chain)) r.table r.chain (map_chain (delete_first r.spec)) k t
        c;
  appends = λ chain spec k t c.
      changed (is_there (k filter_table chain)) filter_table chain
        (map_chain (λ ss. ss ++ spec ∷ [])) k t c;
  makes = λ chain k t c.
      changed (not (is_there (k filter_table chain))) filter_table chain (λ o. some []) k t c;
  flushes = λ chain k t c.
      changed (is_there (k filter_table chain)) filter_table chain (λ o. some []) k t c;
  drops_chain =
      λ chain k t c. changed (is_there (k filter_table chain)) filter_table chain (λ o. none) k t c;
  lists = λ chain k t c. refl;
}

-- A kernel with the chains that are always there.
abbrev fresh_kernel : Chains
fresh_kernel t c =
    if text_eq t filter_table && (text_eq c (codes "INPUT") || text_eq c (codes "FORWARD"))
    then some []
    else none

abbrev hub_router : Router
hub_router = record {
  iface = codes "kai0";
  overlay_cidr = codes "100.64.0.0/10";
  is_hub = true;
  has_dns = true;
  advertise_routes = [];
}

abbrev ssh_rules : List FilterRule
ssh_rules =
    record {
      src_cidrs = codes "100.64.0.2/32" ∷ [];
      protocol = codes "tcp";
      ports = codes "22" ∷ [];
    }
    ∷ []

abbrev ssh_forward : List ForwardRule
ssh_forward =
    record {
      src_cidrs = codes "100.64.0.2/32" ∷ [];
      dst_cidrs = codes "100.64.0.3/32" ∷ [];
      protocol = codes "tcp";
      ports = codes "22" ∷ [];
    }
    ∷ []

abbrev applied : Bool × Chains
applied = apply_filter toy_iptables hub_router true ssh_rules ssh_forward fresh_kernel

applied_ok : applied.0 ≡ true
unfolding text_eq run_rule apply_filter rebuild_filter_chain rebuild_enabled each ensure
    forward_hooks pick_forward_chain filter_chain_specs forward_chain_specs filter_specs
    forward_specs same_spec proto_port_args chunks
applied_ok = refl

filter_applied_example :
    (applied.1 filter_table filter_chain ≡ some (filter_chain_specs ssh_rules))
    × (all (λ (h : Hook). has h.1 (applied.1 filter_table h.0)) (input_hooks hub_router) ≡ true)
unfolding apply_filter toy_iptables_documented
filter_applied_example =
    filter_applied toy_iptables_documented hub_router ssh_rules ssh_forward fresh_kernel applied_ok

abbrev parent : Text
parent =
    (pick_forward_chain toy_iptables
      (rebuild_enabled toy_iptables filter_chain (input_hooks hub_router)
        (filter_chain_specs ssh_rules) fresh_kernel).1).0

forward_applied_example :
    (applied.1 filter_table forward_filter_chain ≡ some (forward_chain_specs ssh_forward))
    × (all (λ (h : Hook). has h.1 (applied.1 filter_table h.0)) (forward_hooks parent hub_router)
        ≡ true)
unfolding apply_filter toy_iptables_documented forward_hooks
forward_applied_example =
    forward_applied toy_iptables_documented hub_router ssh_rules ssh_forward fresh_kernel applied_ok
      refl

-- No chain is there to hook into.
abbrev empty_kernel : Chains
empty_kernel t c = none

abbrev stopped : Bool × Chains
stopped =
    rebuild_enabled toy_iptables filter_chain (input_hooks hub_router)
      (filter_chain_specs ssh_rules) empty_kernel

stopped_fails : stopped.0 ≡ false
unfolding text_eq run_rule rebuild_enabled each ensure filter_chain_specs filter_specs same_spec
    proto_port_args chunks
stopped_fails = refl

rebuild_stops_example :
    (stopped.1 filter_table filter_chain ≡ none)
    ⊎ ((n : ℕ) × (stopped.1 filter_table filter_chain
          ≡ some (take n (filter_chain_specs ssh_rules))))
unfolding toy_iptables_documented rebuild_enabled
rebuild_stops_example =
    rebuild_stops toy_iptables_documented filter_chain (input_hooks hub_router)
      (filter_chain_specs ssh_rules) empty_kernel refl stopped_fails

-- 100.64.0.4, 100.64.0.1 and 192.168.1.5.
abbrev phone_ip : Addr
phone_ip = v4 1681915908

abbrev hub_ip : Addr
hub_ip = v4 1681915905

abbrev lan_ip : Addr
lan_ip = v4 3232235781

-- The server forwards to a network behind it.
abbrev lan_server : Node
lan_server = record server { routes_enabled = codes "192.168.1.0/24" ∷ [] }

abbrev lan_network : List Node
lan_network = hub ∷ lan_server ∷ []

abbrev plain_netmap : Netmap
plain_netmap = record {
  version = 3;
  self = record {
    node_id = codes "h";
    role = role_hub;
    overlay_ip = codes "100.64.0.1";
    overlay_cidr = codes "100.64.0.0/10";
    dns_name = [];
    mtu = 1420;
    lock_public_key = [];
    filter_enabled = false;
  };
  peers = [];
  hosts = [];
  publishes = [];
  filter_rules = [];
  forward_rules = [];
}

-- The phone asks the resolver of the hub.
abbrev name_query : Packet
name_query = packet no_ip6 phone_ip hub_ip (codes "udp") (codes "53") false

inbound_traffic_example :
    verdict name_query (
      filter_chain_specs (
        inbound_rules hub_router
          (with_filter hub network (phone ∷ []) (dev_to_srv ∷ []) plain_netmap)))
    ≡ some (
        asks_resolver hub_router name_query
        || any
            (Inbound.grants
              (proto_ok name_query)
              name_query.from
              (acl_sources network (phone ∷ []))
              hub)
            (dev_to_srv ∷ []))
inbound_traffic_example =
    inbound_traffic no_ip6 phone_ip hub_ip (codes "udp") (codes "53") false hub_router plain_netmap
      hub network (phone ∷ []) (dev_to_srv ∷ []) refl refl

-- It is answered.
name_query_passes : asks_resolver hub_router name_query ≡ true
unfolding text_eq parse_prefix contains
name_query_passes = refl

-- The phone opens a shell in the network behind the server.
abbrev to_shell : Packet
to_shell = packet no_ip6 phone_ip lan_ip (codes "tcp") (codes "22") false

forwarded_traffic_example :
    verdict to_shell (
      forward_chain_specs
        (with_filter hub lan_network (phone ∷ []) (dev_to_srv ∷ []) plain_netmap).forward_rules)
    ≡ some (
        any
          (Forward.grants to_shell.from to_shell.to
            (proto_ok to_shell)
            (acl_sources lan_network (phone ∷ []))
            (forward_dsts hub lan_network (phone ∷ [])))
          (dev_to_srv ∷ []))
unfolding acl_sources
forwarded_traffic_example =
    forwarded_traffic no_ip6 phone_ip lan_ip (codes "tcp") (codes "22") false plain_netmap hub
      lan_network (phone ∷ []) (dev_to_srv ∷ []) refl refl refl

-- Its packets pass the hub.
to_shell_passes :
    any
      (Forward.grants to_shell.from to_shell.to
        (proto_ok to_shell)
        (acl_sources lan_network (phone ∷ []))
        (forward_dsts hub lan_network (phone ∷ [])))
      (dev_to_srv ∷ [])
    ≡ true
unfolding acl_sources forward_dsts text_eq parse_prefix contains match_tag
to_shell_passes = refl

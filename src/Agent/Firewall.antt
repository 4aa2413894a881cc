-- ===== src/Agent/Firewall.antt =====
-- internal/agent/nat_linux.go and syncFilter of internal/agent/agent.go: the firewall of a Linux
-- agent. Writing /proc/sys/net/ipv4/ip_forward is an argument, whether it succeeds.
pub mod Enforced
use home_kai.Base.{
  ℕ, Text, codes, text_eq, Bool, true, false, not, ◌&&◌, ◌||◌, List, [], ◌∷◌, ◌++◌, map, gather,
  is_empty, if◌then◌else◌,
}
use home_kai.Model.{FilterRule, ForwardRule, Netmap, role_hub}
use home_kai.Agent.Filterspec.{Spec, filter_chain_specs, forward_chain_specs}
use home_kai.Agent.Iptables.{
  Iptables, Rule, filter_table, ensure, remove_all, each, chain_command, Hook, rebuild_filter_chain,
}

abbrev pub filter_chain : Text
filter_chain = codes "KAI-FILTER"

abbrev pub forward_filter_chain : Text
forward_filter_chain = codes "KAI-FORWARD"

abbrev comment : Text → Spec
comment tag = codes "-m" ∷ codes "comment" ∷ codes "--comment" ∷ tag ∷ []

abbrev masquerade : Spec
masquerade = codes "-j" ∷ codes "MASQUERADE" ∷ []

abbrev accepting : Spec
accepting = codes "-j" ∷ codes "ACCEPT" ∷ []

-- subnetRouterRules and hubNATRules, on the chain that `forwardChain` picks
unfoldable pub subnet_router_rules : Text → Text → Text → List Text → List Rule
subnet_router_rules fwd iface overlay_cidr routes =
    gather
      (λ rt.
        record {
          table = filter_table;
          chain = fwd;
          spec = codes "-i" ∷ iface ∷ codes "-d" ∷ rt ∷ (comment (codes "kai-subnet") ++ accepting);
        }
        ∷ record {
          table = filter_table;
          chain = fwd;
          spec = codes "-o" ∷ iface ∷ codes "-s" ∷ rt ∷ (comment (codes "kai-subnet") ++ accepting);
        }
        ∷ record {
          table = codes "nat";
          chain = codes "POSTROUTING";
          spec =
              codes "-s"
              ∷ overlay_cidr
              ∷ codes "-d"
              ∷ rt
              ∷ (comment (codes "kai-subnet") ++ masquerade);
        }
        ∷ [])
      routes

unfoldable pub hub_nat_rules : Text → Text → Text → List Rule
hub_nat_rules fwd iface overlay_cidr =
    record {
      table = filter_table;
      chain = fwd;
      spec = codes "-i" ∷ iface ∷ (comment (codes "kai-hub") ++ accepting);
    }
    ∷ record {
      table = filter_table;
      chain = fwd;
      spec = codes "-o" ∷ iface ∷ (comment (codes "kai-hub") ++ accepting);
    }
    ∷ record {
      table = codes "nat";
      chain = codes "POSTROUTING";
      spec =
          codes "-s"
          ∷ overlay_cidr
          ∷ codes "!"
          ∷ codes "-d"
          ∷ overlay_cidr
          ∷ (comment (codes "kai-hub") ++ masquerade);
    }
    ∷ []

-- The parts of the agent that its firewall reads.
pub record Router : Type 0 where
  pub iface : Text
  pub overlay_cidr : Text
  pub is_hub : Bool
  pub has_dns : Bool
  pub advertise_routes : List Text

-- fmt.Sprintf("%v", …) of a list of texts
unfoldable pub show_texts : List Text → Text
show_texts [] = codes "]"
show_texts (x ∷ []) = x ++ codes "]"
show_texts (x ∷ y ∷ xs) = x ++ (b' ' ∷ show_texts (y ∷ xs))

abbrev bracketed : List Text → Text
bracketed xs = b'[' ∷ show_texts xs

abbrev show_filter_rule : FilterRule → Text
show_filter_rule r =
    codes "{SrcCIDRs:"
    ++ (bracketed r.src_cidrs
        ++ (codes " Protocol:"
            ++ (r.protocol ++ (codes " Ports:" ++ (bracketed r.ports ++ codes "}")))))

abbrev show_forward_rule : ForwardRule → Text
show_forward_rule r =
    codes "{SrcCIDRs:"
    ++ (bracketed r.src_cidrs
        ++ (codes " DstCIDRs:"
            ++ (bracketed r.dst_cidrs
                ++ (codes " Protocol:"
                    ++ (r.protocol ++ (codes " Ports:" ++ (bracketed r.ports ++ codes "}")))))))

-- The fingerprint of a rule set.
unfoldable pub fingerprint : Bool → List FilterRule → List ForwardRule → Text
unfolding show_texts
fingerprint enabled rules forward =
    (if enabled then codes "true" else codes "false")
    ++ (b'|'
        ∷ (bracketed (map show_filter_rule rules)
            ++ (b'|' ∷ bracketed (map show_forward_rule forward))))

abbrev dns_rule : Text → Text → FilterRule
dns_rule overlay_cidr protocol = record {
  src_cidrs = overlay_cidr ∷ [];
  protocol = protocol;
  ports = codes "53" ∷ [];
}

-- the rules of `syncFilter`: the hub's resolver is reached whatever the policies say
unfoldable pub inbound_rules : Router → Netmap → List FilterRule
inbound_rules a nm =
    if nm.self.filter_enabled && a.is_hub && a.has_dns
    then dns_rule a.overlay_cidr (codes "udp")
      ∷ dns_rule a.overlay_cidr (codes "tcp")
      ∷ nm.filter_rules
    else nm.filter_rules

abbrev pub input_hooks : Router → List Hook
input_hooks a = (codes "INPUT", codes "-i" ∷ a.iface ∷ codes "-j" ∷ filter_chain ∷ []) ∷ []

unfoldable pub forward_hooks : Text → Router → List Hook
forward_hooks fwd a =
    (if a.is_hub
      then (
        fwd,
        codes "-i" ∷ a.iface ∷ codes "-o" ∷ a.iface ∷ codes "-j" ∷ forward_filter_chain ∷ [],
      )
        ∷ []
      else [])
    ++ map
        (λ rt.
          (fwd, codes "-i" ∷ a.iface ∷ codes "-d" ∷ rt ∷ codes "-j" ∷ forward_filter_chain ∷ []))
        a.advertise_routes

module _ (ipt : Iptables) where
  open ipt use {Kernel}

  -- forwardChain
  unfoldable pub pick_forward_chain : Kernel → Text × Kernel
  pick_forward_chain k =
      let (found, k') = chain_command ipt (codes "-nL") (codes "DOCKER-USER") k in
      ((if found then codes "DOCKER-USER" else codes "FORWARD"), k')

  abbrev when_forwarding : List Hook → (Kernel → Bool × Kernel) → Kernel → Bool × Kernel
  when_forwarding hooks f k = if is_empty hooks then (true, k) else f k

  abbrev forward_leg : Router → Bool → List ForwardRule → Text × Kernel → Bool × Kernel
  forward_leg a enabled forward (fwd, k) =
      when_forwarding (forward_hooks fwd a)
        (rebuild_filter_chain ipt forward_filter_chain (forward_hooks fwd a) enabled
          (forward_chain_specs forward))
        k

  -- applyFilter
  unfoldable pub apply_filter :
      Router → Bool → List FilterRule → List ForwardRule → Kernel → Bool × Kernel
  apply_filter a enabled input forward k =
      let r =
        rebuild_filter_chain ipt filter_chain (input_hooks a) enabled (filter_chain_specs input)
          k in
      elim r.0 [ true ↦ forward_leg a enabled forward (pick_forward_chain r.1) | false ↦ r ]

  abbrev remember : Text → Text → Bool × Kernel → Text × Kernel
  remember old key r = ((if r.0 then key else old), r.1)

  -- syncFilter: `last` is the fingerprint of the rule set applied last
  unfoldable pub sync_filter : Router → Netmap → Text → Kernel → Text × Kernel
  sync_filter a nm last k =
      let rules = inbound_rules a nm in
      let key = fingerprint nm.self.filter_enabled rules nm.forward_rules in
      if text_eq key last
      then (last, k)
      else remember last key (apply_filter a nm.self.filter_enabled rules nm.forward_rules k)

  abbrev added_rules : List Rule → List Rule → Bool × Kernel → (Bool × List Rule) × Kernel
  added_rules managed rules r = ((r.0, (if r.0 then managed ++ rules else managed)), r.1)

  -- setupHubNAT and setupSubnetRouter: the rules that the agent manages are added to `managed`
  unfoldable pub setup_hub_nat : Bool → Router → List Rule → Kernel → (Bool × List Rule) × Kernel
  setup_hub_nat forwarding a managed k =
      let (fwd, k') = pick_forward_chain k in
      let rules = hub_nat_rules fwd a.iface a.overlay_cidr in
      if forwarding
      then added_rules managed rules (each ipt (ensure ipt) rules k')
      else ((false, managed), k)

  unfoldable pub setup_subnet_router :
      Bool → Router → List Rule → Kernel → (Bool × List Rule) × Kernel
  setup_subnet_router forwarding a managed k =
      let (fwd, k') = pick_forward_chain k in
      let rules = subnet_router_rules fwd a.iface a.overlay_cidr a.advertise_routes in
      if forwarding
      then added_rules managed rules (each ipt (ensure ipt) rules k')
      else ((false, managed), k)

  -- teardownNATRules
  unfoldable pub teardown_nat_rules : List Rule → Kernel → List Rule × Kernel
  teardown_nat_rules managed k = ([], remove_all ipt managed k)

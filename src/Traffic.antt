-- ===== src/Traffic.antt =====
-- From the policies of the coordinator (internal/coordinator/acl.go) to the packets that the chains
-- of an agent (internal/agent/filterspec.go) let through.
use home_kai.Base.{
  Option, Text, codes, text_eq, Bool, true, false, ◌&&◌, ◌||◌, ◌≡◌, refl, ap, ◌∙◌, none, some, List,
  [], ◌∷◌, any, all, gather, all-map_of, all-append, all_weaken, arith,
}
use home_kai.Text.Csv.{is_entry}
use home_kai.Store.Exec.{World}
use home_kai.Server.{Env, Config}
use home_kai.Server.Sound.{is_sound, is_sound_policy}
use home_kai.Server.Sound.Reach.{Reach, Reach-is_sound}
use home_kai.Netip.{Addr, Ip6Text, contains}
use home_kai.Netip.Parse.{parse_prefix}
use home_kai.Netmap.{any_enabled, with_filter}
use home_kai.Agent.Firewall.{Router, inbound_rules}
use home_kai.Model.{Node, StaticPeer, Policy, FilterRule, ForwardRule, Netmap}
use home_kai.Acl.{
  acl_sources, forward_dsts, filter_rule, compute_filter_rules, forward_rule, group_dsts,
  policy_forward_rules, compute_forward_rules,
}
use home_kai.Acl.Inbound
use home_kai.Acl.Forward
use home_kai.Acl.Forward.{AreEntries}
use home_kai.Agent.Filterspec.{filter_chain_specs, forward_chain_specs}
use home_kai.Agent.Filterspec.Verdicts.{Packet, verdict, proto_ok}
use home_kai.Agent.Filterspec.Admission.{admitted, filter_chain_verdict, forward_chain_verdict}

-- Does the range of `-s` or `-d` hold the address? A text that is no prefix holds none.
abbrev pub in_range : Ip6Text → Addr → Text → Bool
in_range ip6 a range = elim (parse_prefix ip6 range) [ none ↦ false | some p ↦ contains p a ]

-- A packet between two addresses.
abbrev pub packet : Ip6Text → Addr → Addr → Text → Text → Bool → Packet
packet ip6 src dst protocol port known_flow = record {
  from = in_range ip6 src;
  to = in_range ip6 dst;
  protocol = protocol;
  port = port;
  known_flow = known_flow;
}

-- The ports of every policy are nonempty and without commas, as `normalizePorts` leaves them.
abbrev pub PortsAreEntries : List Policy → Type 0
PortsAreEntries policies = all (λ (p : Policy). all is_entry p.ports) policies ≡ true

all_of_gather {ℓ κ} :
    {A : Type ℓ} {B : Type κ} (good : A → Bool) (q : B → Bool) (f : A → List B) (xs : List A)
    → ((x : A) → good x ≡ true → all q (f x) ≡ true)
    → all good xs ≡ true
    → all q (gather f xs) ≡ true
all_of_gather good q f [] h k = refl
all_of_gather good q f (x ∷ xs) h k =
    all-append q (f x) (gather f xs) ∙ ground (arith, h x, all_of_gather good q f xs h)

filter_ports :
    (dst : Node) (nodes : List Node) (statics : List StaticPeer) (policies : List Policy)
    → PortsAreEntries policies
    → all
        (λ (r : FilterRule). all is_entry r.ports)
        (compute_filter_rules dst nodes statics policies)
      ≡ true
unfolding compute_filter_rules filter_rule
filter_ports dst nodes statics policies h =
    all_of_gather (λ (p : Policy). all is_entry p.ports) (λ (r : FilterRule). all is_entry r.ports)
      (filter_rule dst (acl_sources nodes statics)) policies (λ p k. ground arith) h

forward_ports :
    (self : Node) (nodes : List Node) (statics : List StaticPeer) (policies : List Policy)
    → PortsAreEntries policies
    → all
        (λ (r : ForwardRule). all is_entry r.ports)
        (compute_forward_rules self nodes statics policies)
      ≡ true
unfolding compute_forward_rules policy_forward_rules
forward_ports self nodes statics policies h =
    let sources = acl_sources nodes statics in
    let dsts = forward_dsts self nodes statics in
    all_of_gather (λ (p : Policy). all is_entry p.ports) (λ (r : ForwardRule). all is_entry r.ports)
      (policy_forward_rules sources dsts) policies
      (λ p k. ground (
        arith,
        all-map_of (λ (r : ForwardRule). all is_entry r.ports) (forward_rule p)
            (group_dsts p sources [] dsts) (λ g. k),
      ))
      h

-- Does the packet ask the resolver that the agent runs as the hub?
abbrev pub asks_resolver : Router → Packet → Bool
asks_resolver a p =
    a.is_hub
    && a.has_dns
    && p.from a.overlay_cidr
    && (text_eq p.protocol (codes "udp") || text_eq p.protocol (codes "tcp"))
    && text_eq p.port (codes "53")

inbound_ports :
    (a : Router) (nm : Netmap)
    → all (λ (r : FilterRule). all is_entry r.ports) nm.filter_rules ≡ true
    → all (λ (r : FilterRule). all is_entry r.ports) (inbound_rules a nm) ≡ true
unfolding inbound_rules
inbound_ports a nm h = ground (arith, h)

any-inbound_rules :
    (a : Router) (p : Packet) (nm : Netmap)
    → nm.self.filter_enabled ≡ true
    → any (admitted p) (inbound_rules a nm)
      ≡ (asks_resolver a p || any (admitted p) nm.filter_rules)
unfolding inbound_rules text_eq
any-inbound_rules a p nm h = ground (arith, h)

module _ (ip6 : Ip6Text) (src dst : Addr) (protocol port : Text) (known_flow : Bool) where
  -- When a policy is enabled and no port of the policies is empty or has a comma, the inbound chain
  -- that syncFilter makes of the netmap of the node lets a packet through exactly when it belongs
  -- to a known flow, when the agent is a hub with its resolver and the packet goes from the overlay
  -- to port 53 over UDP or TCP, or when an enabled policy whose destination tags match the node
  -- admits its protocol and port and has a source device whose tags match, whose address range
  -- holds the source of the packet, and which has not the address of the node; it drops every other
  -- packet.
  pub inbound_traffic :
      (a : Router) (nm : Netmap) (node : Node) (nodes : List Node) (statics : List StaticPeer)
      (policies : List Policy)
      → any_enabled policies ≡ true
      → PortsAreEntries policies
      → let p = packet ip6 src dst protocol port known_flow in
        verdict p
          (filter_chain_specs (inbound_rules a (with_filter node nodes statics policies nm)))
        ≡ some (
            known_flow
            || (asks_resolver a p
                || any
                    (Inbound.grants (proto_ok p) p.from (acl_sources nodes statics) node)
                    policies))
  unfolding with_filter
  inbound_traffic a nm node nodes statics policies on h =
      let p = packet ip6 src dst protocol port known_flow in
      let filtered = with_filter node nodes statics policies nm in
      filter_chain_verdict p (inbound_rules a filtered)
        (inbound_ports a filtered (rw on (filter_ports node nodes statics policies h)))
      ∙ ap (λ b. some (known_flow || b))
          (any-inbound_rules a p filtered (rw on refl)
            ∙ ap (λ b. asks_resolver a p || b)
                (rw on (
                  Inbound.compute_filter_rules_exact (proto_ok p) p.from node nodes statics
                    policies)))

  -- When a policy is enabled, no port of the policies is empty or has a comma and no address of a
  -- device has a comma, the forward chain that an agent makes of the netmap of its node lets a
  -- packet through exactly when it belongs to a known flow, or an enabled policy admits its
  -- protocol and port, matches the tags of a device or subnet that the node forwards to and whose
  -- range holds the destination of the packet, and has a source device whose tags match, whose
  -- range holds the source of the packet, and which has another address than that destination; it
  -- drops every other packet.
  pub forwarded_traffic :
      (nm : Netmap) (self : Node) (nodes : List Node) (statics : List StaticPeer)
      (policies : List Policy)
      → any_enabled policies ≡ true
      → PortsAreEntries policies
      → AreEntries (acl_sources nodes statics)
      → let p = packet ip6 src dst protocol port known_flow in
        verdict p (forward_chain_specs (with_filter self nodes statics policies nm).forward_rules)
        ≡ some (
            known_flow
            || any
                (Forward.grants p.from p.to
                  (proto_ok p)
                  (acl_sources nodes statics)
                  (forward_dsts self nodes statics))
                policies)
  unfolding with_filter
  forwarded_traffic nm self nodes statics policies on h k =
      let p = packet ip6 src dst protocol port known_flow in
      rw (with_filter, on)
        (forward_chain_verdict p (compute_forward_rules self nodes statics policies)
            (forward_ports self nodes statics policies h)
          ∙ ap (λ b. some (known_flow || b))
              (Forward.compute_forward_rules_exact p.from p.to (proto_ok p) self nodes statics
                policies k))

-- In every state that the coordinator reaches from a well-formed one the ports of the policies are
-- nonempty and without commas.
pub Reach-PortsAreEntries :
    (env : Env) (cfg : Config) (split : Text → Option (Text × Text)) {start w : World}
    → is_sound cfg.reserved_ports start.db ≡ true
    → Reach env cfg split start w
    → PortsAreEntries w.db.policies
unfolding is_sound
Reach-PortsAreEntries env cfg split {w = w} h k =
    all_weaken is_sound_policy (λ (p : Policy). all is_entry p.ports) w.db.policies
      (λ p s. ground (arith, s)) (ground (arith, Reach-is_sound env cfg split h k))

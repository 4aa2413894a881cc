-- ===== src/Netmap/Filter.antt =====
-- The access control in a netmap: the filter and the candidates for direct paths.
use home_kai.Base.{
  ℕ, Text, text_eq, Bool, true, false, not, ◌&&◌, ◌||◌, Option, none, some, ◌≡◌, refl, ◌∙◌, List,
  [], ◌∷◌, map, any, all, keep, find, any-keep, all-append, all-map_of, is_empty, arith,
  Option-cases, Bool-cases, inl, inr,
}
use home_kai.Netip.{Prefix, Ip6Text}
use home_kai.Model.{Node, StaticPeer, Endpoint, Policy, Publish, Peer, Netmap}
use home_kai.Acl.{AclDev, acl_sources}
use home_kai.Acl.Inbound.{admits, grants, compute_filter_rules_exact}
use home_kai.Netmap.{
  Candidates, hub_sees_node, hub_sees_static, spoke_sees_node, is_other, is_hub, spoke_sees_hub,
  hub_peers, spoke_peers, build_netmap, filter_capable, withhold, any_enabled, with_filter,
  map_netmap, netmap_for, fresh_candidates,
}
use home_kai.Netmap.Peers.{peers_of, result, given, peers_of-hub, peers_of-no_hub, peers_of-spoke}

-- Is the netmap's filter on, and does it admit a source? An error has no filter and admits nothing.
abbrev pub filter_on : Option Netmap → Bool
filter_on none = false
filter_on (some nm) = nm.self.filter_enabled

abbrev pub filter_admits : (Text → List Text → Bool) → Text → Option Netmap → Bool
filter_admits q src none = false
filter_admits q src (some nm) = any (admits q (text_eq src)) nm.filter_rules

abbrev pub is_some : Option Netmap → Bool
is_some none = false
is_some (some nm) = true

-- What `BuildNetmap` leaves to `buildNetmapFor`: no filter yet.
abbrev IsPlain : Option Netmap → Type 0
IsPlain none = Unit
IsPlain (some nm) = (nm.self.filter_enabled ≡ false) × (nm.filter_rules ≡ [])

build_netmap-IsPlain :
    (ip6 : Ip6Text) (cidr : Prefix) (hub_endpoint : Text) (mtu : ℕ) (self : Node)
    (nodes : List Node) (statics : List StaticPeer) (candidates : Candidates)
    (publishes : List Publish) (lock_pub : Text) (version : ℕ)
    → IsPlain (
        build_netmap ip6 cidr hub_endpoint mtu self nodes statics candidates publishes lock_pub
          version)
unfolding build_netmap
build_netmap-IsPlain ip6 cidr hub_endpoint mtu self nodes statics candidates publishes lock_pub
      version =
    elim (Bool-cases (is_hub self)) [
      | inl h ↦ rw h (refl, refl)
      | inr h ↦ elim (Option-cases (find is_hub nodes)) [
        | inl e ↦ rw (h, e) tt
        | inr (hub, e) ↦ rw (h, e) (refl, refl)
      ]
    ]

no_grant_when_off :
    (node : Node) (q : Text → List Text → Bool) (src : Text) (sources : List AclDev)
    (ps : List Policy)
    → any_enabled ps ≡ false
    → any (grants q (text_eq src) sources node) ps ≡ false
no_grant_when_off node q src sources [] h = refl
no_grant_when_off node q src sources (p ∷ ps) h =
    ground (arith, no_grant_when_off node q src sources ps)

module _ (node : Node) (nodes : List Node) (statics : List StaticPeer)
    (policies : List Policy) where
  filtered : Option Netmap → Option Netmap
  filtered b = map_netmap (with_filter node nodes statics policies) b

  filter_on-filtered :
      (b : Option Netmap)
      → IsPlain b
      → is_some (filtered b) ≡ true
      → filter_on (filtered b) ≡ any_enabled policies
  unfolding filtered with_filter
  filter_on-filtered none p h = ground arith
  filter_on-filtered (some nm) p h = ground arith

  filter_admits-filtered :
      (q : Text → List Text → Bool) (src : Text) (b : Option Netmap)
      → IsPlain b
      → is_some (filtered b) ≡ true
      → filter_admits q src (filtered b)
        ≡ any (grants q (text_eq src) (acl_sources nodes statics) node) policies
  unfolding filtered with_filter
  filter_admits-filtered q src none p h = ground arith
  filter_admits-filtered q src (some nm) p h = ground (
    arith,
    compute_filter_rules_exact q (text_eq src) node nodes statics policies,
    no_grant_when_off node q src (acl_sources nodes statics) policies,
  )

module _ (ip6 : Ip6Text) (cidr : Prefix) (hub_endpoint : Text) (mtu now : ℕ) (node : Node)
    (all_nodes : List Node) (statics : List StaticPeer) (eps : List Endpoint)
    (publishes : List Publish) (lock_pub : Text) (policies : List Policy) (version : ℕ) where
  abbrev nm : Option Netmap
  nm =
      result ip6 cidr hub_endpoint mtu now node all_nodes statics eps publishes lock_pub policies
        version

  abbrev nodes : List Node
  nodes = keep (λ (n : Node). n.approved) all_nodes

  -- A computed netmap has the filter on exactly when a policy is enabled, and its inbound rules
  -- admit a source, for a test of protocol and ports, exactly when an enabled policy grants it
  -- among the approved nodes and the static peers.
  pub netmap_filter_exact :
      is_some nm ≡ true
      → (filter_on nm ≡ any_enabled policies)
        × ((q : Text → List Text → Bool) (src : Text)
            → filter_admits q src nm
              ≡ any (grants q (text_eq src) (acl_sources nodes statics) node) policies)
  unfolding netmap_for filtered
  netmap_filter_exact h =
      let candidates =
        given ip6 cidr hub_endpoint mtu now node all_nodes statics eps publishes lock_pub policies
          version in
      let built =
        build_netmap ip6 cidr hub_endpoint mtu node nodes statics candidates publishes lock_pub
          version in
      let plain =
        build_netmap-IsPlain ip6 cidr hub_endpoint mtu node nodes statics candidates publishes
          lock_pub version in
      (
        filter_on-filtered node nodes statics policies built plain h,
        λ q src. filter_admits-filtered node nodes statics policies q src built plain h,
      )

  -- Does the peer come without candidates, or can both ends filter?
  abbrev pub is_covered : Peer → Bool
  is_covered p =
      is_empty p.candidates
      || (filter_capable node
          && not (
              any (λ n. n.approved && (text_eq n.id p.node_id && not (filter_capable n)))
                all_nodes))

  withhold_covers :
      (c : Candidates) (id : Text)
      → (is_empty (withhold node nodes c id)
          || (filter_capable node
              && not
                  (any (λ n. n.approved && (text_eq n.id id && not (filter_capable n))) all_nodes)))
        ≡ true
  unfolding withhold
  withhold_covers c id = ground (
    arith,
    any-keep (λ n. text_eq n.id id && not (filter_capable n)) (λ (n : Node). n.approved) all_nodes,
  )

  hub_covers : all is_covered (hub_peers node nodes statics) ≡ true
  unfolding hub_peers
  hub_covers =
      all-append is_covered (map hub_sees_node (keep (is_other node) nodes))
        (map hub_sees_static statics)
      ∙ ground (
        arith,
        all-map_of is_covered hub_sees_node (keep (is_other node) nodes) (λ n. refl),
        all-map_of is_covered hub_sees_static statics (λ p. refl),
      )

  spoke_covers :
      (c : Candidates) (hub : Node)
      → all is_covered (spoke_peers ip6 cidr hub_endpoint node nodes (withhold node nodes c) hub)
        ≡ true
  unfolding spoke_peers spoke_sees_hub
  spoke_covers c hub =
      all-map_of is_covered (spoke_sees_node (withhold node nodes c))
        (keep (λ n. is_other node n && not (is_hub n)) nodes) (λ n. withhold_covers c n.id)

  -- While a policy is enabled, a netmap gives candidates for a direct path only where the receiver
  -- and every approved node with the id of the peer can enforce the filter.
  pub netmap_candidates_covered : any_enabled policies ≡ true → all is_covered (peers_of nm) ≡ true
  netmap_candidates_covered on = elim (Bool-cases (is_hub node)) [
    | inl h ↦
        rw
          (peers_of-hub ip6 cidr hub_endpoint mtu now node all_nodes statics eps publishes lock_pub
            policies version h)
          hub_covers
    | inr h ↦ elim (Option-cases (find is_hub nodes)) [
      | inl e ↦ rw (
          peers_of-no_hub ip6 cidr hub_endpoint mtu now node all_nodes statics eps publishes
            lock_pub policies version h e)
      | inr (hub, e) ↦
          rw
            (peers_of-spoke ip6 cidr hub_endpoint mtu now node all_nodes statics eps publishes
              lock_pub policies version h e)
            (rw on (spoke_covers (fresh_candidates now eps) hub))
    ]
  ]

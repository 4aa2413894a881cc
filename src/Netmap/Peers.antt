-- ===== src/Netmap/Peers.antt =====
-- The peers in a netmap of internal/coordinator/netmap.go.
use home_kai.Base.{
  ℕ, Text, text_eq, Bool, true, false, not, ◌&&◌, ◌||◌, Option, none, some, ◌≡◌, refl, ◌∙◌, List,
  [], ◌∷◌, map, any, keep, find, any-append, any-map, any-keep, arith, if◌then◌else◌, Option-cases,
  inl, inr, ap, ||-eq-true,
}
use home_kai.Netip.{Prefix, Ip6Text}
use home_kai.Model.{Node, StaticPeer, Endpoint, Policy, Publish, Peer, Netmap}
use home_kai.Netmap.{
  Candidates, hub_sees_node, hub_sees_static, spoke_sees_node, is_other, is_hub, spoke_sees_hub,
  hub_peers, spoke_peers, build_netmap, withhold, any_enabled, with_filter, map_netmap, netmap_for,
  fresh_candidates,
}

-- The peers of a computed netmap; an error gives none.
abbrev pub peers_of : Option Netmap → List Peer
peers_of none = []
peers_of (some nm) = nm.peers

peers_of-with_filter :
    (node : Node) (nodes : List Node) (statics : List StaticPeer) (policies : List Policy)
    (nm : Option Netmap)
    → peers_of (map_netmap (with_filter node nodes statics policies) nm) ≡ peers_of nm
unfolding with_filter
peers_of-with_filter node nodes statics policies none = refl
peers_of-with_filter node nodes statics policies (some nm) = ground arith

abbrev pub has_key : Text → Peer → Bool
has_key k p = text_eq k p.wg_public_key

-- A hub's peers are the other nodes and the static peers.
any-hub_peers :
    (k : Text) (self : Node) (nodes : List Node) (statics : List StaticPeer)
    → any (has_key k) (hub_peers self nodes statics) ≡ (
        any (λ n. is_other self n && text_eq k n.wg_pub_key) nodes
        || any (λ (p : StaticPeer). text_eq k p.wg_pub_key) statics)
unfolding hub_peers
any-hub_peers k self nodes statics = ground (
  arith,
  any-append (has_key k) (map hub_sees_node (keep (is_other self) nodes))
      (map hub_sees_static statics),
  any-map (has_key k) hub_sees_node (keep (is_other self) nodes),
  any-map (has_key k) hub_sees_static statics,
  any-keep (λ (n : Node). text_eq k n.wg_pub_key) (is_other self) nodes,
)

any-spokes :
    (k : Text) (self : Node) (nodes : List Node) (candidates : Candidates)
    → any
        (has_key k)
        (map (spoke_sees_node candidates) (keep (λ n. is_other self n && not (is_hub n)) nodes))
      ≡ any (λ n. (is_other self n && not (is_hub n)) && text_eq k n.wg_pub_key) nodes
any-spokes k self nodes candidates =
    any-map (has_key k) (spoke_sees_node candidates)
      (keep (λ n. is_other self n && not (is_hub n)) nodes)
    ∙ any-keep (λ (n : Node). text_eq k n.wg_pub_key) (λ n. is_other self n && not (is_hub n)) nodes

-- The element that `find` gives passes what every such element passes.
any_of_find {ℓ} :
    {A : Type ℓ} (p q : A → Bool) (xs : List A) (x : A)
    → find p xs ≡ some x
    → q x ≡ true
    → any q xs ≡ true
any_of_find p q [] x h k = ground arith
any_of_find p q (y ∷ ys) x h k = ground (arith, any_of_find p q ys x)

find-none {ℓ} : {A : Type ℓ} (p : A → Bool) (xs : List A) → find p xs ≡ none → any p xs ≡ false
find-none p [] h = refl
find-none p (x ∷ xs) h = ground (arith, find-none p xs)

any_mono {ℓ} :
    {A : Type ℓ} (p q : A → Bool) (xs : List A)
    → ((x : A) → p x ≡ true → q x ≡ true)
    → any p xs ≡ true
    → any q xs ≡ true
any_mono p q [] f h = h
any_mono p q (x ∷ xs) f h = ground (arith, f x, any_mono p q xs f)

module _ (ip6 : Ip6Text) (cidr : Prefix) (hub_endpoint : Text) (mtu now : ℕ) (node : Node)
    (all_nodes : List Node) (statics : List StaticPeer) (eps : List Endpoint)
    (publishes : List Publish) (lock_pub : Text) (policies : List Policy) (version : ℕ) where
  abbrev pub result : Option Netmap
  result =
      netmap_for ip6 cidr hub_endpoint mtu now node all_nodes statics eps publishes lock_pub
        policies version

  abbrev pub approved_nodes : List Node
  approved_nodes = keep (λ (n : Node). n.approved) all_nodes

  abbrev pub given : Candidates
  given =
      if any_enabled policies
      then withhold node approved_nodes (fresh_candidates now eps)
      else fresh_candidates now eps

  pub peers_of-result :
      peers_of result
      ≡ peers_of (
          build_netmap ip6 cidr hub_endpoint mtu node approved_nodes statics given publishes
            lock_pub version)
  unfolding netmap_for
  peers_of-result = peers_of-with_filter node approved_nodes statics policies (
      build_netmap ip6 cidr hub_endpoint mtu node approved_nodes statics given publishes lock_pub
        version)

  pub peers_of-hub : is_hub node ≡ true → peers_of result ≡ hub_peers node approved_nodes statics
  unfolding build_netmap
  peers_of-hub h = peers_of-result ∙ rw h

  pub peers_of-no_hub :
      is_hub node ≡ false → find is_hub approved_nodes ≡ none → peers_of result ≡ []
  unfolding build_netmap
  peers_of-no_hub h e = peers_of-result ∙ rw (h, e)

  pub peers_of-spoke :
      {hub : Node}
      → is_hub node ≡ false
      → find is_hub approved_nodes ≡ some hub
      → peers_of result ≡ spoke_peers ip6 cidr hub_endpoint node approved_nodes given hub
  unfolding build_netmap
  peers_of-spoke h e = peers_of-result ∙ rw (h, e)

  -- In the netmap of the hub, a WireGuard key is a peer exactly when it is the key of another
  -- approved node or of a static peer.
  pub hub_netmap_keys :
      is_hub node ≡ true
      → (k : Text)
      → any (has_key k) (peers_of result) ≡ (
          any (λ n. n.approved && (is_other node n && text_eq k n.wg_pub_key)) all_nodes
          || any (λ (p : StaticPeer). text_eq k p.wg_pub_key) statics)
  hub_netmap_keys h k =
      rw (peers_of-hub h, any-hub_peers k node approved_nodes statics)
        (ap (λ b. b || any (λ (p : StaticPeer). text_eq k p.wg_pub_key) statics)
          (any-keep (λ n. is_other node n && text_eq k n.wg_pub_key) (λ (n : Node). n.approved)
            all_nodes))

  -- The keys of the peers of a spoke, when the first approved hub is `hub`.
  any-spoke_peers :
      (k : Text) (hub : Node)
      → is_hub node ≡ false
      → find is_hub approved_nodes ≡ some hub
      → any (has_key k) (peers_of result) ≡ (
          text_eq k hub.wg_pub_key
          || any
              (λ n. n.approved && ((is_other node n && not (is_hub n)) && text_eq k n.wg_pub_key))
              all_nodes)
  any-spoke_peers k hub h e = rw (peers_of-spoke h e) (
      unfold spoke_peers spoke_sees_hub in
      ap (λ b. text_eq k hub.wg_pub_key || b)
        (any-spokes k node approved_nodes given
          ∙ any-keep (λ n. (is_other node n && not (is_hub n)) && text_eq k n.wg_pub_key)
              (λ (n : Node). n.approved) all_nodes))

  -- In the netmap of a spoke every WireGuard key of a peer is that of an approved node.
  pub spoke_keys_sound :
      (k : Text)
      → is_hub node ≡ false
      → any (has_key k) (peers_of result) ≡ true
      → any (λ n. n.approved && text_eq k n.wg_pub_key) all_nodes ≡ true
  spoke_keys_sound k h m = elim (Option-cases (find is_hub approved_nodes)) [
    | inl e ↦ cc (ap (any (has_key k)) (peers_of-no_hub h e))
    | inr (hub, e) ↦ elim (||-eq-true _ _ (rw (any-spoke_peers k hub h e) at m)) [
      | inl at_hub ↦
          rw
            (← any-keep (λ (n : Node). text_eq k n.wg_pub_key) (λ (n : Node). n.approved) all_nodes)
            (any_of_find is_hub (λ (n : Node). text_eq k n.wg_pub_key) approved_nodes hub e at_hub)
      | inr at_spoke ↦
          any_mono
            (λ n. n.approved && ((is_other node n && not (is_hub n)) && text_eq k n.wg_pub_key))
            (λ n. n.approved && text_eq k n.wg_pub_key) all_nodes (λ n q. ground arith) at_spoke
    ]
  ]

  -- Once an approved hub is there, the key of every other approved spoke is in the netmap of a
  -- spoke.
  pub spoke_keys_complete :
      (k : Text)
      → is_hub node ≡ false
      → any (λ n. n.approved && is_hub n) all_nodes ≡ true
      → any
          (λ n. n.approved && ((is_other node n && not (is_hub n)) && text_eq k n.wg_pub_key))
          all_nodes
        ≡ true
      → any (has_key k) (peers_of result) ≡ true
  spoke_keys_complete k h there m = elim (Option-cases (find is_hub approved_nodes)) [
    | inl e ↦
        cc (find-none is_hub approved_nodes e, any-keep is_hub (λ (n : Node). n.approved) all_nodes)
    | inr (hub, e) ↦ rw (any-spoke_peers k hub h e) (ground arith)
  ]

-- ===== src/Agent/LocalStatus/Paths.antt =====
-- The paths that localStatus (internal/agent/localapi.go) shows, beside the peers that composePeers
-- (internal/agent/agent.go) installs.
use home_kai.Base.{
  ℕ, Text, text_eq, text_eq_iff, Bool, true, some, ◌≡◌, refl, List, [], ◌∷◌, if◌then◌else◌, arith,
  Bool-cases, ◌⊎◌, inl, inr,
}
use home_kai.Netip.{Prefix, Ip6Text}
use home_kai.Model.{Peer, role_node}
use home_kai.Agent.Probe.{
  PeerStatus, ProbeState, Phase, idle, probing, direct, Probes, is_direct, state_of, status_of,
  no_status, probe_managed,
}
use home_kai.Agent.Compose.{
  PeerConfig, compose_peer, chosen_path, path_of, parse_prefixes, compose_path,
  relayed_until_direct,
}
use home_kai.Agent.LocalStatus.{
  probe_of, spoke_path, relay_path, direct_path, shown_path, local_peer,
}

-- The prober's state of a peer is the one that is shown, and a fresh one is idle.
state_of-probe_of :
    (key endpoint : Text) (probes : Probes)
    → (spoke_path (probe_of key probes) endpoint).0
      ≡ (if is_direct (state_of key probes).phase then direct_path else relay_path)
unfolding state_of probe_of
state_of-probe_of key endpoint [] = refl
state_of-probe_of key endpoint ((k, ps) ∷ rest) =
    ground (arith, state_of-probe_of key endpoint rest)

shown_of_managed :
    (role : Text) (now : ℕ) (statuses : List PeerStatus) (probes : Probes) (p : Peer)
    → probe_managed role p ≡ true
    → (local_peer role now statuses probes p).path
      ≡ (if is_direct (state_of p.wg_public_key probes).phase then direct_path else relay_path)
unfolding local_peer shown_path probe_managed text_eq
shown_of_managed role now statuses probes p m =
    let node : p.role ≡ role_node = (text_eq_iff p.role role_node).0 (ground (arith, m)) in
    ground (
      arith,
      m,
      text_eq_iff p.role role_node,
      node,
      state_of-probe_of p.wg_public_key
          (status_of p.wg_public_key statuses (no_status p.wg_public_key)).endpoint probes,
    )

direct_path_of :
    (ph : Phase) (ps : ProbeState) (p : Peer)
    → is_direct ph ≡ true
    → (path_of ph ps p).0 ≡ p.allowed_ips
unfolding path_of
direct_path_of idle ps p h = cc
direct_path_of probing ps p h = cc
direct_path_of direct ps p h = refl

module _ (ip6 : Ip6Text) (valid_key : Text → Bool) (overlay : Prefix) (role : Text)
    (probes : Probes) where
  -- Of another spoke that composePeers installs, localStatus shows the path direct only when its
  -- peer has all addresses of the netmap, and else the path relay, when its peer has none.
  pub shown_path_true :
      (now : ℕ) (statuses : List PeerStatus) (p : Peer) (pc : PeerConfig)
      → probe_managed role p ≡ true
      → compose_peer ip6 valid_key overlay role probes p ≡ some pc
      → let shown = (local_peer role now statuses probes p).path in
        ((shown ≡ direct_path) × (parse_prefixes ip6 p.allowed_ips ≡ some pc.allowed_ips))
        ⊎ ((shown ≡ relay_path) × (pc.allowed_ips ≡ []))
  unfolding chosen_path
  shown_path_true now statuses p pc m c =
      let key = p.wg_public_key in
      elim (Bool-cases (is_direct (state_of key probes).phase)) [
        | inl d ↦ inl (
          ground (arith, d, shown_of_managed role now statuses probes p m),
          ground (
            arith,
            m,
            d,
            direct_path_of (state_of key probes).phase (state_of key probes) p d,
            compose_path ip6 valid_key overlay role probes p pc c,
          ),
        )
        | inr d ↦ inr (
          ground (arith, d, shown_of_managed role now statuses probes p m),
          relayed_until_direct ip6 valid_key overlay role probes p pc m c d,
        )
      ]

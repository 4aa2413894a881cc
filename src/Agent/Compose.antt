-- ===== src/Agent/Compose.antt =====
-- Agent.composePeers (internal/agent/agent.go): the WireGuard peers that a netmap and the prober
-- make. The parsing of a key is a parameter.
use home_kai.Base.{
  ℕ, ◌*◌, Text, Bool, true, false, not, Option, none, some, ◌≡◌, List, [], ◌∷◌, ◌++◌, keep,
  is_empty, arith, if◌then◌else◌,
}
use home_kai.Netip.{Prefix, Ip6Text, overlaps}
use home_kai.Netip.Parse.{parse_prefix}
use home_kai.Model.{Peer, second}
use home_kai.Agent.Probe.{
  ProbeState, Phase, idle, probing, direct, is_direct, is_idle, Probes, state_of, endpoint,
  probe_managed,
}

-- wgdev.PeerConfig
pub record PeerConfig : Type 0 where
  pub public_key : Text
  pub endpoint : Text
  pub allowed_ips : List Prefix
  pub keepalive : ℕ

abbrev first_of_two : Text → Text → Text
first_of_two a b = if is_empty a then b else a

-- `allowed` and `pc.Endpoint` for a probe-managed peer, by the phase of its state
unfoldable pub path_of : Phase → ProbeState → Peer → List Text × Text
path_of idle ps p = ([], [])
path_of probing ps p = ([], endpoint ps)
path_of direct ps p = (p.allowed_ips, first_of_two ps.confirmed_endpoint (endpoint ps))

unfoldable pub chosen_path : Text → Probes → Peer → List Text × Text
chosen_path role probes p =
    if probe_managed role p
    then path_of (state_of p.wg_public_key probes).phase (state_of p.wg_public_key probes) p
    else (p.allowed_ips, p.endpoint)

module _ (ip6 : Ip6Text) where
  unfoldable pub parse_prefixes : List Text → Option (List Prefix)
  parse_prefixes [] = some []
  parse_prefixes (s ∷ rest) = elim (parse_prefix ip6 s) [
    | none ↦ none
    | some pfx ↦ elim (parse_prefixes rest) [ none ↦ none | some more ↦ some (pfx ∷ more) ]
  ]

  module _ (valid_key : Text → Bool) (overlay : Prefix) (role : Text) (probes : Probes) where
    -- the body of the loop; `none` is an error
    unfoldable pub compose_peer : Peer → Option PeerConfig
    compose_peer p =
        let (allowed, endpoint) = chosen_path role probes p in
        if not (valid_key p.wg_public_key) then none else elim (parse_prefixes allowed) [
          | none ↦ none
          | some prefixes ↦ some (record {
            public_key = p.wg_public_key;
            endpoint = endpoint;
            allowed_ips = prefixes;
            keepalive = if is_empty endpoint then 0 else p.keepalive_sec * second;
          })
        ]

    unfoldable pub subnet_routes : PeerConfig → List Prefix
    subnet_routes pc = keep (λ pfx. not (overlaps pfx overlay)) pc.allowed_ips

    unfoldable pub compose_peers : List Peer → Option (List PeerConfig × List Prefix)
    compose_peers [] = some ([], [])
    compose_peers (p ∷ ps) = elim (compose_peer p) [
      | none ↦ none
      | some pc ↦ elim (compose_peers ps) [
        | none ↦ none
        | some (pcs, routes) ↦ some (pc ∷ pcs, subnet_routes pc ++ routes)
      ]
    ]

    pub compose_path :
        (p : Peer) (pc : PeerConfig)
        → compose_peer p ≡ some pc
        → (parse_prefixes (chosen_path role probes p).0 ≡ some pc.allowed_ips)
          × (pc.endpoint ≡ (chosen_path role probes p).1)
          × (is_empty pc.endpoint ≡ true → pc.keepalive ≡ 0)
    unfolding compose_peer
    compose_path p pc h = ground arith

    -- While another spoke is not reached directly, its peer gets no addresses, so that its traffic
    -- stays on the hub.
    pub relayed_until_direct :
        (p : Peer) (pc : PeerConfig)
        → probe_managed role p ≡ true
        → compose_peer p ≡ some pc
        → is_direct (state_of p.wg_public_key probes).phase ≡ false
        → pc.allowed_ips ≡ []
    unfolding chosen_path path_of parse_prefixes
    relayed_until_direct p pc m c d = ground (arith, compose_path p pc c)

    -- Another spoke that is neither probed nor reached directly gets no addresses, no endpoint and
    -- no keepalive.
    pub silent_while_idle :
        (p : Peer) (pc : PeerConfig)
        → probe_managed role p ≡ true
        → compose_peer p ≡ some pc
        → is_idle (state_of p.wg_public_key probes).phase ≡ true
        → (pc.allowed_ips ≡ []) × (pc.endpoint ≡ []) × (pc.keepalive ≡ 0)
    unfolding chosen_path path_of parse_prefixes
    silent_while_idle p pc m c d =
        let q = compose_path p pc c in (ground (arith, q), ground (arith, q), ground (arith, q))

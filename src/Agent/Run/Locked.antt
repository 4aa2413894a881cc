-- ===== src/Agent/Run/Locked.antt =====
-- The network lock and the device: what applyNetmap of internal/agent/agent.go installs once a key
-- is pinned.
use mathlib.Core.Path.{subst}
use home_kai.Base.{
  ℕ, Text, text_eq, Bool, true, false, not, ◌&&◌, ◌==◌, Option, some, ◌≡◌, refl, sym, ap, ◌∙◌, ◌⊎◌,
  inl, inr, List, [], ◌∷◌, all, all-keep_self, keep, length, is_empty, arith, Option-cases,
  Bool-cases,
}
use home_kai.Netip.{Prefix}
use home_kai.Model.{Netmap, Peer, role_hub}
use home_kai.Agent.Lock.{Crypto, is_signed, filter_peers, enforce_lock, public_key_size}
use home_kai.Agent.Lock.Pinning.{installed, is_signed_by}
use home_kai.Agent.Probe.{Probes, sync_probes}
use home_kai.Agent.Compose.{PeerConfig, compose_peers}
use home_kai.Agent.Iptables.{Iptables}
use home_kai.Agent.Run.{
  Device, Site, Agent, apply_netmap, apply_within, overlay_of, share_netmap, take_netmap, install,
  settle, store_pin, sync_services, apply_filter_of, cache_netmap,
}
use home_kai.Agent.HostsFile.{sync_hosts}

-- Are the peers that are left signed by the pinned key?
abbrev AreSigned : Crypto → Text → Option (List Peer) → Type 0
AreSigned crypto pinned o = all (is_signed_by crypto pinned) (installed o) ≡ true

signed_by :
    (crypto : Crypto) (pinned pub_key : Text) (peers : List Peer)
    → crypto.decode pinned ≡ some pub_key
    → all (is_signed crypto pub_key) peers ≡ true
    → all (is_signed_by crypto pinned) peers ≡ true
signed_by crypto pinned pub_key [] e h = refl
signed_by crypto pinned pub_key (p ∷ peers) e h =
    let same : is_signed_by crypto pinned p ≡ is_signed crypto pub_key p =
      rw (is_signed_by, e) refl in
    ground (arith, h, same, signed_by crypto pinned pub_key peers e)

filter_peers-AreSigned :
    (crypto : Crypto) (pinned : Text) (peers : List Peer)
    → AreSigned crypto pinned (filter_peers crypto pinned peers)
unfolding filter_peers
filter_peers-AreSigned crypto pinned peers = elim (Option-cases (crypto.decode pinned)) [
  | inl e ↦ rw (e, filter_peers) refl
  | inr (pub_key, e) ↦ elim (Bool-cases (length pub_key == public_key_size)) [
    | inl k ↦
        rw (filter_peers, e, k)
          (signed_by crypto pinned pub_key (keep (is_signed crypto pub_key) peers) e
            (all-keep_self (is_signed crypto pub_key) peers))
    | inr k ↦ rw (filter_peers, e, k) refl
  ]
]

enforce_lock-AreSigned :
    (crypto : Crypto) (saved : Bool) (pinned offered : Text) (peers : List Peer)
    → is_empty pinned ≡ false
    → AreSigned crypto pinned (enforce_lock crypto saved pinned offered peers).1
unfolding enforce_lock
enforce_lock-AreSigned crypto saved pinned offered peers p =
    ground (arith, p, filter_peers-AreSigned crypto pinned peers)

module _ {dev : Device} {ipt : Iptables} (site : Site dev ipt) where
  -- What the calls of the device make of its state, for the peers of a netmap.
  abbrev pub Installed : List Peer → dev.State → dev.State → Type 0
  Installed peers d d' =
      (overlay : Prefix) × (overlay_of site ≡ some overlay)
      × (probes : Probes) × (composed : List PeerConfig × List Prefix) × (compose_peers site.ip6
            site.valid_key overlay site.role probes peers
          ≡ some composed)
      × ((d' ≡ (dev.apply_peers composed.0 d).1)
          ⊎ (d' ≡ dev.sync_routes composed.1 (dev.apply_peers composed.0 d).1))

  sync_services-device :
      (nm : Netmap) (a : Agent dev ipt) → (sync_services site nm a).device ≡ a.device
  sync_services-device nm a = elim (Bool-cases (text_eq site.role role_hub)) [
    | inl e ↦ rw e refl
    | inr e ↦ rw e refl
  ]

  cache_netmap-device :
      (fresh : Bool) (nm : Netmap) (a : Agent dev ipt)
      → (cache_netmap site fresh nm a).device ≡ a.device
  cache_netmap-device true nm a = refl
  cache_netmap-device false nm a = refl

  settle-device :
      (fresh : Bool) (nm : Netmap) (routes : List Prefix) (a : Agent dev ipt)
      → (settle site fresh nm routes a).device ≡ dev.sync_routes routes a.device
  unfolding settle
  settle-device fresh nm routes a =
      let b = record a { device = dev.sync_routes routes a.device } in
      let c = record b {
        hosts = sync_hosts site.write site.renamed site.removed site.no_hosts nm.hosts b.hosts;
      } in
      cache_netmap-device fresh nm (apply_filter_of site nm (sync_services site nm c))
      ∙ sync_services-device nm c

  install-device :
      (fresh : Bool) (nm : Netmap) (composed : List PeerConfig × List Prefix) (a : Agent dev ipt)
      → let r = dev.apply_peers composed.0 a.device in
        ((install site fresh nm composed a).1.device ≡ r.1)
        ⊎ ((install site fresh nm composed a).1.device ≡ dev.sync_routes composed.1 r.1)
  unfolding install
  install-device fresh nm composed a = elim (Bool-cases (dev.apply_peers composed.0 a.device).0) [
    | inl e ↦
        rw (e, install)
          (inr (
            settle-device fresh nm composed.1
              (record a { device = (dev.apply_peers composed.0 a.device).1 })))
    | inr e ↦ rw (e, install) (inl refl)
  ]

  -- The device is left alone, or is given the peers.
  abbrev Takes : List Peer → Agent dev ipt → Bool × Agent dev ipt → Type 0
  Takes peers a r = (r.1.device ≡ a.device) ⊎ Installed peers a.device r.1.device

  take_netmap-Takes :
      (overlay : Prefix)
      → overlay_of site ≡ some overlay
      → (now : ℕ) (fresh : Bool) (nm : Netmap) (a : Agent dev ipt)
      → Takes nm.peers a (take_netmap site overlay now fresh nm a)
  unfolding take_netmap
  take_netmap-Takes overlay o now fresh nm a =
      let probes = sync_probes site.ip6 site.role now nm.peers a.probes in
      let b = record a { current = some nm; probes = probes } in
      elim (Option-cases
        (compose_peers site.ip6 site.valid_key overlay site.role probes nm.peers)) [
          | inl e ↦ rw (e, take_netmap) (inl refl)
          | inr (composed, e) ↦
              rw (e, take_netmap)
                (inr (overlay, o, probes, composed, e, install-device fresh nm composed b))
        ]

  store_pin-device :
      (offered : Text) (a : Agent dev ipt) (pinned : Text)
      → (store_pin site offered a pinned).device ≡ a.device
  store_pin-device offered a pinned =
      elim (Bool-cases (is_empty pinned && not (is_empty offered) && site.saves)) [
        | inl e ↦ rw e refl
        | inr e ↦ rw e refl
      ]

  share_netmap-device :
      (fresh : Bool) (nm : Netmap) (a : Agent dev ipt)
      → (share_netmap site fresh nm a).device ≡ a.device
  share_netmap-device true nm a = refl
  share_netmap-device false nm a = refl

  -- The device is left alone, or is given peers with a signature by the pinned key.
  abbrev TakesSigned : Agent dev ipt → Agent dev ipt → Type 0
  TakesSigned after a =
      (after.device ≡ a.device)
      ⊎ ((peers : List Peer) × (all (is_signed_by site.crypto a.pinned) peers ≡ true)
          × Installed peers a.device after.device)

  apply_within-TakesSigned :
      (overlay : Prefix)
      → overlay_of site ≡ some overlay
      → (now : ℕ) (fresh : Bool) (nm : Netmap) (a : Agent dev ipt) → is_empty a.pinned ≡ false
      → TakesSigned (apply_within site overlay now fresh nm a).1 a
  unfolding apply_within
  apply_within-TakesSigned overlay o now fresh nm a p =
      let r = enforce_lock site.crypto site.saves a.pinned nm.self.lock_public_key nm.peers in
      let signed =
        enforce_lock-AreSigned site.crypto site.saves a.pinned nm.self.lock_public_key nm.peers p in
      let b = store_pin site nm.self.lock_public_key (record a { pinned = r.0 }) a.pinned in
      let same = store_pin-device nm.self.lock_public_key (record a { pinned = r.0 }) a.pinned in
      elim (Option-cases r.1) [
        | inl e ↦ rw (e, apply_within) (inl same)
        | inr (peers, e) ↦
            let left = record nm { peers = peers } in
            let c = share_netmap site fresh left b in
            let shared = share_netmap-device fresh left b ∙ same in
            rw (e, apply_within)
              (elim (take_netmap-Takes overlay o now fresh left c) [
                | inl kept ↦ inl (kept ∙ shared)
                | inr given ↦ inr (
                  peers,
                  sym (ap (λ x. all (is_signed_by site.crypto a.pinned) (installed x)) e) ∙ signed,
                  subst
                      (λ d. Installed peers d (take_netmap site overlay now fresh left c).1.device)
                      shared given,
                )
              ])
      ]

  apply_netmap_within :
      (overlay : Prefix)
      → overlay_of site ≡ some overlay
      → (now : ℕ) (fresh : Bool) (nm : Netmap) (a : Agent dev ipt)
      → apply_netmap site now fresh nm a ≡ apply_within site overlay now fresh nm a
  unfolding apply_netmap
  apply_netmap_within overlay o now fresh nm a = rw (o, apply_netmap) refl

  -- Once an agent has pinned a key, applyNetmap leaves the device as it is, or gives it the
  -- configuration, and possibly the routes, that composePeers makes of peers all of which have a
  -- signature by the pinned key.
  pub locked_device :
      (now : ℕ) (fresh : Bool) (nm : Netmap) (a : Agent dev ipt)
      → is_empty a.pinned ≡ false
      → let after = (apply_netmap site now fresh nm a).1 in
        (after.device ≡ a.device)
        ⊎ ((peers : List Peer) × (all (is_signed_by site.crypto a.pinned) peers ≡ true)
            × Installed peers a.device after.device)
  unfolding apply_netmap
  locked_device now fresh nm a p = elim (Option-cases (overlay_of site)) [
    | inl e ↦ rw (e, apply_netmap) (inl refl)
    | inr (overlay, e) ↦
        subst (λ x. TakesSigned x.1 a) (sym (apply_netmap_within overlay e now fresh nm a))
          (apply_within-TakesSigned overlay e now fresh nm a p)
  ]

-- ===== src/Agent/Run/Apply.antt =====
-- What applyNetmap of internal/agent/agent.go leaves behind, on every path.
use home_kai.Base.{
  ℕ, Text, Bool, false, not, ◌&&◌, true, Option, some, ◌≡◌, refl, sym, ◌∙◌, ◌⊎◌, inl, inr, List,
  is_empty, arith, Option-cases, Bool-cases,
}
use mathlib.Core.Path.{subst}
use home_kai.Netip.{Prefix}
use home_kai.Model.{Netmap, Peer}
use home_kai.Agent.Lock.{enforce_lock}
use home_kai.Agent.Probe.{sync_probes}
use home_kai.Agent.Compose.{PeerConfig, compose_peers}
use home_kai.Agent.Iptables.{Iptables}
use home_kai.Agent.Run.{
  Device, Site, Agent, apply_netmap, apply_within, share_netmap, overlay_of, take_netmap, install,
  store_pin,
}
use home_kai.Agent.HostsFile.{HostsFiles}
use home_kai.Agent.Publish.{Targets}
use home_kai.Agent.Dns.{Records}

module _ {dev : Device} {ipt : Iptables} where
  -- What a node has beside its device, its pin and its state.
  abbrev pub services : Agent dev ipt → HostsFiles × Targets × Records × Text × ipt.Kernel
  services a = (a.hosts, a.forwarders, a.records, a.last_filter, a.firewall)

module _ {dev : Device} {ipt : Iptables} (site : Site dev ipt) where
  -- When a call fails, the services and the netmaps of the state and of its file are as they were.
  abbrev KeepsWhenFailed : Bool × Agent dev ipt → Agent dev ipt → Type 0
  KeepsWhenFailed r a =
      r.0 ≡ false → (services r.1 ≡ services a) × (r.1.cached ≡ a.cached) × (r.1.stored ≡ a.stored)

  install_failed :
      (fresh : Bool) (nm : Netmap) (composed : List PeerConfig × List Prefix) (a : Agent dev ipt)
      → KeepsWhenFailed (install site fresh nm composed a) a
  unfolding install
  install_failed fresh nm composed a = elim (Bool-cases (dev.apply_peers composed.0 a.device).0) [
    | inl e ↦ rw (e, install) (λ h. absurd (ground (arith, h)))
    | inr e ↦ rw (e, install) (λ h. (refl, refl, refl))
  ]

  take_netmap_failed :
      (overlay : Prefix) (now : ℕ) (fresh : Bool) (nm : Netmap) (a : Agent dev ipt)
      → KeepsWhenFailed (take_netmap site overlay now fresh nm a) a
  unfolding take_netmap
  take_netmap_failed overlay now fresh nm a =
      let probes = sync_probes site.ip6 site.role now nm.peers a.probes in
      elim (Option-cases
        (compose_peers site.ip6 site.valid_key overlay site.role probes nm.peers)) [
          | inl e ↦ rw (e, take_netmap) (λ h. (refl, refl, refl))
          | inr (composed, e) ↦
              rw (e, take_netmap)
                (install_failed fresh nm composed (record a { current = some nm; probes = probes }))
        ]

  abbrev pinned_agent_of : Netmap → Agent dev ipt → Agent dev ipt
  pinned_agent_of nm a =
      let r = enforce_lock site.crypto site.saves a.pinned nm.self.lock_public_key nm.peers in
      store_pin site nm.self.lock_public_key (record a { pinned = r.0 }) a.pinned

  abbrev AsBefore : Option Netmap → Agent dev ipt → Agent dev ipt → Type 0
  AsBefore cached b a =
      (services b ≡ services a)
      × (b.cached ≡ cached)
      × ((b.stored ≡ a.stored) ⊎ (b.stored ≡ a.cached))

  store_pin-AsBefore :
      (offered : Text) (a : Agent dev ipt) (pinned : Text)
      → AsBefore a.cached (store_pin site offered a pinned) a
  store_pin-AsBefore offered a pinned =
      elim (Bool-cases (is_empty pinned && not (is_empty offered) && site.saves)) [
        | inl e ↦ rw e (refl, refl, inr refl)
        | inr e ↦ rw e (refl, refl, inl refl)
      ]

  -- What becomes of the netmap of the state: it stays, or it is the one that is applied and has only
  -- the peers that the lock leaves.
  abbrev pub CacheStaysOrIsFiltered : Bool → Netmap → Option Netmap → Agent dev ipt → Type 0
  CacheStaysOrIsFiltered fresh nm cached a =
      (cached ≡ a.cached)
      ⊎ ((left : List Peer) × ((enforce_lock site.crypto site.saves a.pinned nm.self.lock_public_key
              nm.peers).1
            ≡ some left)
          × (fresh ≡ false)
          × (cached ≡ some (record nm { peers = left })))

  -- What a failed applyNetmap leaves.
  abbrev pub IsContained : Bool → Netmap → Agent dev ipt → Agent dev ipt → Type 0
  IsContained fresh nm b a =
      (services b ≡ services a)
      × CacheStaysOrIsFiltered fresh nm b.cached a
      × ((b.stored ≡ a.stored) ⊎ (b.stored ≡ a.cached))

  share_netmap-IsContained :
      (fresh : Bool) (nm : Netmap) (left : List Peer) (b a : Agent dev ipt)
      → (enforce_lock site.crypto site.saves a.pinned nm.self.lock_public_key nm.peers).1
        ≡ some left
      → AsBefore a.cached b a
      → IsContained fresh nm (share_netmap site fresh (record nm { peers = left }) b) a
  share_netmap-IsContained true nm left b a e (s, c, f) = (s, inl c, f)
  share_netmap-IsContained false nm left b a e (s, c, f) = (s, inr (left, e, refl, refl), f)

  -- The pin and the state file behind the lock.
  abbrev behind_lock : Netmap → Agent dev ipt → Agent dev ipt
  behind_lock nm a =
      let r = enforce_lock site.crypto site.saves a.pinned nm.self.lock_public_key nm.peers in
      store_pin site nm.self.lock_public_key (record a { pinned = r.0 }) a.pinned

  apply_within_left :
      (overlay : Prefix) (now : ℕ) (fresh : Bool) (nm : Netmap) (left : List Peer)
      (a : Agent dev ipt)
      → (enforce_lock site.crypto site.saves a.pinned nm.self.lock_public_key nm.peers).1
        ≡ some left
      → apply_within site overlay now fresh nm a
        ≡ take_netmap site overlay now fresh
            (record nm { peers = left })
            (share_netmap site fresh (record nm { peers = left }) (behind_lock nm a))
  unfolding apply_within
  apply_within_left overlay now fresh nm left a e = rw (e, apply_within) refl

  apply_within_failed :
      (overlay : Prefix) (now : ℕ) (fresh : Bool) (nm : Netmap) (a : Agent dev ipt)
      → (apply_within site overlay now fresh nm a).0 ≡ false
      → IsContained fresh nm (apply_within site overlay now fresh nm a).1 a
  unfolding apply_within
  apply_within_failed overlay now fresh nm a =
      let r = enforce_lock site.crypto site.saves a.pinned nm.self.lock_public_key nm.peers in
      let before =
        store_pin-AsBefore nm.self.lock_public_key (record a { pinned = r.0 }) a.pinned in
      elim (Option-cases r.1) [
        | inl e ↦ rw (e, apply_within) (λ h. (before.0, inl before.1, before.2))
        | inr (peers, e) ↦
            let left = record nm { peers = peers } in
            let c = share_netmap site fresh left (behind_lock nm a) in
            let (s, k, f) = share_netmap-IsContained fresh nm peers (behind_lock nm a) a e before in
            subst (λ x. x.0 ≡ false → IsContained fresh nm x.1 a)
              (sym (apply_within_left overlay now fresh nm peers a e))
              (λ h.
                let (s', k', f') = take_netmap_failed overlay now fresh left c h in
                (
                  s' ∙ s,
                  subst (λ x. CacheStaysOrIsFiltered fresh nm x a) (sym k') k,
                  subst (λ x. (x ≡ a.stored) ⊎ (x ≡ a.cached)) (sym f') f,
                ))
      ]

  -- An applyNetmap that fails leaves the hosts file, the forwarders, the records of the resolver
  -- and the firewall with its fingerprint as they were. The netmap of the state stays too, unless
  -- it is the one that is applied: then it may have lost the peers that the lock refuses. The state
  -- file keeps its netmap, or has been written with the one of the state before the call.
  pub failed_apply_keeps :
      (now : ℕ) (fresh : Bool) (nm : Netmap) (a : Agent dev ipt)
      → (apply_netmap site now fresh nm a).0 ≡ false
      → IsContained fresh nm (apply_netmap site now fresh nm a).1 a
  unfolding apply_netmap
  failed_apply_keeps now fresh nm a = elim (Option-cases (overlay_of site)) [
    | inl e ↦ rw (e, apply_netmap) (λ h. (refl, inl refl, inl refl))
    | inr (overlay, e) ↦ rw (e, apply_netmap) (apply_within_failed overlay now fresh nm a)
  ]

-- ===== src/Agent/Lock/Pinning.antt =====
-- Trust on first use in `enforceLock` of internal/agent/lock.go.
use home_kai.Base.{
  Text, text_eq, Bool, false, ◌&&◌, Option, none, some, ◌≡◌, refl, List, [], keep, any, any-keep,
  ◌||◌, length, is_empty, arith, ◌==◌, if◌then◌else◌,
}
use home_kai.Model.{Peer}
use home_kai.Agent.Lock.{Crypto, is_signed, filter_peers, enforce_lock, public_key_size}

-- The peers that an agent installs; an error installs none.
abbrev pub installed : Option (List Peer) → List Peer
installed none = []
installed (some ps) = ps

module _ (crypto : Crypto) where
  -- Is the binding of the peer signed by the key with this text?
  abbrev pub is_signed_by : Text → Peer → Bool
  is_signed_by key p = elim (crypto.decode key) [
    | none ↦ false
    | some pub_key ↦ is_signed crypto pub_key p
  ]

  -- Does the text decode to a key of the right size?
  abbrev pub is_key : Text → Bool
  is_key key = elim (crypto.decode key) [
    | none ↦ false
    | some pub_key ↦ length pub_key == public_key_size
  ]

  module _ (q : Peer → Bool) where
    any-filter_peers :
        (key : Text) (peers : List Peer)
        → any q (installed (filter_peers crypto key peers))
          ≡ (is_key key && any (λ p. is_signed_by key p && q p) peers)
    unfolding filter_peers
    any-filter_peers key peers = go (crypto.decode key)
      where
        go :
            (o : Option Text)
            → any q (
                installed (elim o [
                  | none ↦ none
                  | some pub_key ↦
                      if length pub_key == public_key_size
                      then some (keep (is_signed crypto pub_key) peers)
                      else none
                ]))
              ≡ (elim o [ none ↦ false | some pub_key ↦ length pub_key == public_key_size ]
                  && any
                      (λ p.
                        elim o [ none ↦ false | some pub_key ↦ is_signed crypto pub_key p ] && q p)
                      peers)
        go none = refl
        go (some pub_key) = ground (arith, any-keep q (is_signed crypto pub_key) peers)

    -- Once an agent has pinned a key no netmap changes the pin, and a peer of a netmap that passes
    -- a test is installed exactly when the netmap offers no key or the pinned one, the pinned key
    -- is well formed, and such a peer has its binding signed by it.
    pub pinned_agent :
        (saved : Bool) (pinned offered : Text) (peers : List Peer)
        → is_empty pinned ≡ false
        → let (pin, left) = enforce_lock crypto saved pinned offered peers in
          (pin ≡ pinned)
          × (any q (installed left) ≡ (
              (is_empty offered || text_eq offered pinned)
              && (is_key pinned && any (λ p. is_signed_by pinned p && q p) peers)))
    unfolding enforce_lock
    pinned_agent saved pinned offered peers h =
        (ground arith, ground (arith, any-filter_peers pinned peers))

    -- An agent without a pin takes the netmap as it is while no key is offered. It pins an offered
    -- key, and then a peer that passes a test is installed exactly when the state file was written,
    -- the key is well formed, and such a peer has its binding signed by it.
    pub unpinned_agent :
        (saved : Bool) (offered : Text) (peers : List Peer)
        → let (pin, left) = enforce_lock crypto saved [] offered peers in
          (pin ≡ offered)
          × (any q (installed left) ≡ (
              if is_empty offered
              then any q peers
              else saved && (is_key offered && any (λ p. is_signed_by offered p && q p) peers)))
    unfolding enforce_lock
    unpinned_agent saved offered peers =
        (ground arith, ground (arith, any-filter_peers offered peers))

-- ===== src/Agent/Lock.antt =====
-- internal/agent/lock.go: the agent's half of the network lock. Base64 and Ed25519 are parameters,
-- and so is the outcome of writing the state file.
use home_kai.Base.{
  ℕ, Text, codes, text_eq, Bool, true, false, not, ◌&&◌, ◌||◌, Option, none, some, List, [], ◌∷◌,
  ◌++◌, keep, length, ◌==◌, is_empty, if◌then◌else◌,
}
use home_kai.Model.{Peer, Netmap}
pub mod Pinning

-- What the lock uses of encoding/base64 and crypto/ed25519.
pub record Crypto : Type 0 where
  pub decode : Text → Option Text
  pub verify : Text → Text → Text → Bool

-- api.LockMessage
unfoldable pub lock_message : Text → Text → Text
lock_message wg_public_key overlay_ip =
    codes "kai-lock-v1|" ++ (wg_public_key ++ (b'|' ∷ overlay_ip))

abbrev pub public_key_size : ℕ
public_key_size = 32

module _ (crypto : Crypto) where
  -- The test of the loop over the peers.
  unfoldable pub is_signed : Text → Peer → Bool
  is_signed pub_key p = elim (crypto.decode p.lock_sig) [
    | none ↦ false
    | some sig ↦
        not (is_empty p.lock_sig)
        && crypto.verify pub_key (lock_message p.wg_public_key p.overlay_ip) sig
  ]

  -- From the pinned key on: `none` is the error "pinned lock key is corrupt".
  unfoldable pub filter_peers : Text → List Peer → Option (List Peer)
  filter_peers pinned peers = elim (crypto.decode pinned) [
    | none ↦ none
    | some pub_key ↦
        if length pub_key == public_key_size then some (keep (is_signed pub_key) peers) else none
  ]

  -- Agent.enforceLock: the pinned key that the state holds afterwards, and the peers that are left.
  -- `saved` tells whether the state file could be written.
  unfoldable pub enforce_lock : Bool → Text → Text → List Peer → Text × Option (List Peer)
  enforce_lock saved pinned offered peers =
      if is_empty pinned
      then if is_empty offered
        then (pinned, some peers)
        else if not saved
        then (offered, none)
        else (offered, filter_peers offered peers)
      else if not (is_empty offered) && not (text_eq offered pinned)
      then (pinned, none)
      else (pinned, filter_peers pinned peers)

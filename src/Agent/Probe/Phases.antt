-- ===== src/Agent/Probe/Phases.antt =====
-- The steps of the prober of internal/agent/probe.go for one peer.
use home_kai.Base.{
  ℕ, ◌+◌, ◌-◌, ◌<◌, Text, true, false, ◌≡◌, List, [], ◌∷◌, length, is_empty, arith, leb,
  if◌then◌else◌,
}
use home_kai.Agent.Probe.{
  ProbeState, idle, is_idle, is_probing, is_direct, fresh_state, take_candidates, sync_peer,
  probe_one, direct_stale_after, retry_after_demote,
}

-- A peer that is probed or reached directly has candidates, and the one that is probed is among
-- them; only a peer that is reached directly has a confirmed endpoint.
pub record IsSound (ps : ProbeState) : Type 0 where
  pub has_candidates : is_idle ps.phase ≡ false → is_empty ps.candidates ≡ false
  pub in_range : is_probing ps.phase ≡ true → ps.cand_idx < length ps.candidates
  pub relayed : is_direct ps.phase ≡ false → ps.confirmed_endpoint ≡ []

pub fresh_state-IsSound : IsSound fresh_state
fresh_state-IsSound = ground arith

pos_of_nonempty : (xs : List Text) → is_empty xs ≡ false → 0 < length xs
pos_of_nonempty [] h = ground arith
pos_of_nonempty (x ∷ xs) h = omega arith

-- Every step of the prober keeps the state of a peer sound.
pub probe_one-IsSound :
    (now hs : ℕ) (live : Text) (ps : ProbeState) → IsSound ps → IsSound (probe_one now hs live ps).0
unfolding probe_one
probe_one-IsSound now hs live ps s = ground (arith, pos_of_nonempty ps.candidates)

-- What a new netmap does to a peer keeps its state sound.
pub sync_peer-IsSound :
    (now : ℕ) (hostname : Text) (cands : List Text) (ps : ProbeState)
    → IsSound ps
    → IsSound (sync_peer now hostname cands ps)
unfolding sync_peer take_candidates
sync_peer-IsSound now hostname cands ps s = ground (arith, pos_of_nonempty cands)

-- In a sound state, a step makes a direct path only of candidates and of a handshake younger than
-- three minutes, and takes the endpoint that the device reports.
pub probe_one_promotes :
    (now hs : ℕ) (live : Text) (ps : ProbeState)
    → IsSound ps
    → is_direct ps.phase ≡ false
    → is_direct (probe_one now hs live ps).0.phase ≡ true
    → (is_empty ps.candidates ≡ false)
      × (now - hs < direct_stale_after)
      × ((probe_one now hs live ps).0.confirmed_endpoint ≡ live)
unfolding probe_one
probe_one_promotes now hs live ps s h k = (ground arith, ground arith, ground arith)

-- A direct path is kept exactly while the last handshake is at most three minutes old; a peer that
-- loses it has no confirmed endpoint and is tried again two minutes later.
pub probe_one_demotes :
    (now hs : ℕ) (live : Text) (ps : ProbeState)
    → is_direct ps.phase ≡ true
    → (probe_one now hs live ps).0 ≡ (
        if leb (now - hs) direct_stale_after then ps else record ps {
          phase = idle;
          confirmed_endpoint = [];
          next_retry_at = now + retry_after_demote;
        })
unfolding probe_one
probe_one_demotes now hs live ps h = ground arith

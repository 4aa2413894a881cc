-- ===== src/Agent/Probe.antt =====
-- internal/agent/probe.go: the search for direct paths between spokes. A `*probeState` is a record,
-- and the map `a.probes` an association list by WireGuard key. The loops of the source range over
-- Go maps in no order; each entry is treated by itself, so the order is not modelled.
pub mod Phases
pub mod Search
use home_kai.Base.{
  ℕ, ◌+◌, ◌-◌, ◌*◌, Text, codes, text_eq, elem, Bool, true, false, not, ◌&&◌, ◌||◌, Option, none,
  some, List, [], ◌∷◌, ◌++◌, map, any, keep, get_elem?, length, ltb, leb, ◌==◌, is_empty,
  collect_upto, if◌then◌else◌,
}
use home_kai.Base.Int.{ℤ, pos}
use home_kai.Text.{join_csv}
use home_kai.Netip.{AddrPort, Ip6Text, unmap, is_loopback, is_multicast, is_unspecified}
use home_kai.Netip.Parse.{parse_addr_port}
use home_kai.Model.{Peer, role_hub, role_node, second, minute}

abbrev pub candidate_window : ℕ
candidate_window = 10 * second

abbrev pub direct_stale_after : ℕ
direct_stale_after = 3 * minute

abbrev pub retry_after_fail : ℕ
retry_after_fail = 30 * minute

abbrev pub retry_after_demote : ℕ
retry_after_demote = 2 * minute

pub data Phase : Type 0 where
  idle probing direct : Phase

pub record ProbeState : Type 0 where
  pub phase : Phase
  pub candidates : List Text
  pub cand_idx : ℕ
  pub attempt_at : ℕ
  pub next_retry_at : ℕ
  pub hostname : Text
  pub confirmed_endpoint : Text

abbrev pub fresh_state : ProbeState
fresh_state = record {
  phase = idle;
  candidates = [];
  cand_idx = 0;
  attempt_at = 0;
  next_retry_at = 0;
  hostname = [];
  confirmed_endpoint = [];
}

abbrev pub is_idle : Phase → Bool
is_idle idle = true
is_idle _ = false

abbrev pub is_probing : Phase → Bool
is_probing probing = true
is_probing _ = false

abbrev pub is_direct : Phase → Bool
is_direct direct = true
is_direct _ = false

abbrev or_empty : Option Text → Text
or_empty none = []
or_empty (some t) = t

-- probeState.endpoint
unfoldable pub endpoint : ProbeState → Text
endpoint ps =
    if is_idle ps.phase || leb (length ps.candidates) ps.cand_idx
    then []
    else or_empty (get_elem? ps.candidates ps.cand_idx)

abbrev pub max_candidates : ℕ
max_candidates = 8

module _ (ip6 : Ip6Text) where
  abbrev pub worth_dialling : AddrPort → Bool
  worth_dialling a =
      let ip = unmap a.addr in
      not (a.port == 0) && not (is_loopback ip || is_multicast ip || is_unspecified ip)

  -- the body of the loop of `validCandidates`
  unfoldable pub valid_candidate : Text → Option Text
  valid_candidate c = elim (parse_addr_port ip6 c) [
    | none ↦ none
    | some a ↦ if worth_dialling a then some c else none
  ]

  unfoldable pub valid_candidates : List Text → List Text
  valid_candidates cs = collect_upto valid_candidate max_candidates cs []

-- Agent.probeManaged, on the role of the agent
unfoldable pub probe_managed : Text → Peer → Bool
probe_managed role p =
    not (text_eq role role_hub) && is_empty p.endpoint && text_eq p.role role_node

-- The four assignments of `syncProbes` when the candidates have changed, in their order.
unfoldable pub take_candidates : ℕ → List Text → ProbeState → ProbeState
take_candidates now cands ps =
    let s = record ps { candidates = cands } in
    let t = if is_probing s.phase then record s { cand_idx = 0; attempt_at = now } else s in
    let u = if is_idle t.phase then record t { next_retry_at = 0 } else t in
    if is_empty cands && not (is_idle u.phase)
    then record u { phase = idle; confirmed_endpoint = [] }
    else u

-- The loop body of `syncProbes` for a managed peer with the valid candidates `cands`.
unfoldable pub sync_peer : ℕ → Text → List Text → ProbeState → ProbeState
sync_peer now hostname cands ps =
    let s = record ps { hostname = hostname } in
    if not (text_eq (join_csv s.candidates) (join_csv cands))
    then take_candidates now cands s
    else s

abbrev pub Probes : Type 0
Probes = List (Text × ProbeState)

-- `a.probes[key]`, a fresh state where there is none
unfoldable pub state_of : Text → Probes → ProbeState
state_of key [] = fresh_state
state_of key ((k, ps) ∷ rest) =
    let others = state_of key rest in if text_eq key k then ps else others

unfoldable pub put_state : Text → ProbeState → Probes → Probes
put_state key ps [] = (key, ps) ∷ []
put_state key ps ((k, old) ∷ rest) =
    let others = put_state key ps rest in
    if text_eq key k then (k, ps) ∷ rest else (k, old) ∷ others

module _ (ip6 : Ip6Text) (role : Text) (now : ℕ) where
  unfoldable pub sync_one : Probes → Peer → Probes
  sync_one probes p =
      if probe_managed role p
      then put_state p.wg_public_key
          (sync_peer now p.hostname (valid_candidates ip6 p.candidates)
            (state_of p.wg_public_key probes))
          probes
      else probes

  unfoldable pub sync_peers : Probes → List Peer → Probes
  sync_peers probes [] = probes
  sync_peers probes (p ∷ ps) = sync_peers (sync_one probes p) ps

  -- Agent.syncProbes: the loop over the peers, then the keys that were not seen are deleted
  unfoldable pub sync_probes : List Peer → Probes → Probes
  sync_probes peers probes =
      keep
        (λ (e : Text × ProbeState).
          any (λ p. probe_managed role p && text_eq e.0 p.wg_public_key) peers)
        (sync_peers probes peers)

-- The cases of `probeStep` on one entry: the new state, and `changed`. `hs` is the time of the last
-- handshake and `live` the endpoint that the device reports, 0 and empty where there is none.
unfoldable pub step_direct : ℕ → ℕ → ProbeState → ProbeState × Bool
step_direct now hs ps =
    if ltb direct_stale_after (now - hs)
    then (
      record ps { phase = idle; confirmed_endpoint = []; next_retry_at = now + retry_after_demote },
      true,
    )
    else (ps, false)

unfoldable pub step_probing : ℕ → ℕ → Text → ProbeState → ProbeState × Bool
step_probing now hs live ps =
    if ltb (now - hs) direct_stale_after
    then (record ps { phase = direct; confirmed_endpoint = live }, true)
    else if ltb candidate_window (now - ps.attempt_at)
    then (
      (if leb (length ps.candidates) (ps.cand_idx + 1)
          then record ps {
            phase = idle;
            cand_idx = ps.cand_idx + 1;
            attempt_at = now;
            next_retry_at = now + retry_after_fail;
          }
          else record ps { cand_idx = ps.cand_idx + 1; attempt_at = now }),
      true,
    )
    else (ps, false)

unfoldable pub step_idle : ℕ → ℕ → Text → ProbeState → ProbeState × Bool
step_idle now hs live ps =
    if is_empty ps.candidates
    then (ps, false)
    else if ltb (now - hs) direct_stale_after && not (is_empty live)
    then (record ps { phase = direct; confirmed_endpoint = live }, true)
    else if ltb ps.next_retry_at now
    then (record ps { phase = probing; cand_idx = 0; attempt_at = now }, true)
    else (ps, false)

dispatch : Phase → ℕ → ℕ → Text → ProbeState → ProbeState × Bool
dispatch direct now hs live ps = step_direct now hs ps
dispatch probing now hs live ps = step_probing now hs live ps
dispatch idle now hs live ps = step_idle now hs live ps

unfoldable pub probe_one : ℕ → ℕ → Text → ProbeState → ProbeState × Bool
unfolding dispatch step_direct step_probing step_idle
probe_one now hs live ps = dispatch ps.phase now hs live ps

-- What the device reports of one peer.
pub record PeerStatus : Type 0 where
  pub public_key : Text
  pub endpoint : Text
  pub last_handshake : ℕ
  pub rx_bytes : ℤ
  pub tx_bytes : ℤ

abbrev pub no_status : Text → PeerStatus
no_status key = record {
  public_key = key;
  endpoint = [];
  last_handshake = 0;
  rx_bytes = pos 0;
  tx_bytes = pos 0;
}

-- The entry for a key that `probeStep` puts into `handshakes` and `liveEndpoints`: the last one.
unfoldable pub status_of : Text → List PeerStatus → PeerStatus → PeerStatus
status_of key [] found = found
status_of key (st ∷ rest) found =
    status_of key rest (if text_eq key st.public_key then st else found)

-- Agent.probeStep: the new states, and whether the netmap is applied again
unfoldable pub probe_step : ℕ → List PeerStatus → Probes → Probes × Bool
probe_step now statuses [] = ([], false)
probe_step now statuses ((key, ps) ∷ rest) =
    let st = status_of key statuses (no_status key) in
    let (ps', changed) = probe_one now st.last_handshake st.endpoint ps in
    let (rest', others) = probe_step now statuses rest in ((key, ps') ∷ rest', changed || others)

-- ===== src/Tests/Agents.antt =====
-- The prober, the lock and the port lists of an agent at concrete inputs.
use home_kai.Base.{
  ℕ, zero, suc, ◌+◌, ◌-◌, ◌*◌, ◌<◌, Text, codes, text_eq, Bool, true, false, ◌&&◌, ◌||◌, ◌≡◌, refl,
  List, [], ◌∷◌, ◌++◌, any, is_empty, arith, if◌then◌else◌,
}
use home_kai.Model.{Peer, role_node, second, minute}
use home_kai.Agent.Lock.{enforce_lock}
use home_kai.Agent.Lock.Pinning.{installed, is_key, is_signed_by, pinned_agent, unpinned_agent}
use home_kai.Agent.Probe.{
  ProbeState, idle, probing, direct, fresh_state, sync_peer, probe_one, direct_stale_after,
}
use home_kai.Agent.Probe.Phases.{IsSound, probe_one_promotes}
use home_kai.Agent.Probe.Search.{AreTicks, GivesUp, search_ends, Sight, run, withdrawal_lasts}
use home_kai.Agent.Compose.{PeerConfig}
use home_kai.Tests.Data.{toy_crypto}

abbrev key : Text
key = codes "0123456789abcdef0123456789abcdef"

abbrev make_peer : Text → Peer
make_peer sig = record {
  node_id = codes "b";
  hostname = codes "b";
  role = role_node;
  dns_name = [];
  overlay_ip = codes "100.64.0.3";
  wg_public_key = codes "KB";
  endpoint = [];
  allowed_ips = codes "100.64.0.3/32" ∷ [];
  keepalive_sec = 25;
  candidates = [];
  lock_sig = sig;
}

-- One peer whose binding the key has signed, and one without a signature.
abbrev offered_peers : List Peer
offered_peers = make_peer (key ++ codes "kai-lock-v1|KB|100.64.0.3") ∷ make_peer [] ∷ []

abbrev has_ip : Peer → Bool
has_ip p = text_eq p.overlay_ip (codes "100.64.0.3")

pinned_agent_example :
    let (pin, left) = enforce_lock toy_crypto true key key offered_peers in
    (pin ≡ key)
    × (any has_ip (installed left) ≡ (
        (is_empty key || text_eq key key)
        && (is_key toy_crypto key
            && any (λ p. is_signed_by toy_crypto key p && has_ip p) offered_peers)))
pinned_agent_example = pinned_agent toy_crypto has_ip true key key offered_peers refl

unpinned_agent_example :
    let (pin, left) = enforce_lock toy_crypto true [] key offered_peers in
    (pin ≡ key)
    × (any has_ip (installed left) ≡ (
        if is_empty key
        then any has_ip offered_peers
        else true
          && (is_key toy_crypto key
              && any (λ p. is_signed_by toy_crypto key p && has_ip p) offered_peers)))
unpinned_agent_example = unpinned_agent toy_crypto has_ip true key offered_peers

-- A peer with two candidates, of which the first is probed since the time `minute`.
abbrev searching : ProbeState
searching = record fresh_state {
  phase = probing;
  candidates = codes "10.0.0.7:51820" ∷ codes "10.0.0.8:51820" ∷ [];
  attempt_at = minute;
}

abbrev reached : ProbeState
reached = record searching { phase = direct; confirmed_endpoint = codes "10.0.0.7:51820" }

searching-IsSound : IsSound searching
searching-IsSound = ground arith

probe_one_promotes_example :
    (is_empty searching.candidates ≡ false)
    × (3 * minute - 2 * minute < direct_stale_after)
    × ((probe_one (3 * minute) (2 * minute) (codes "10.0.0.7:51820") searching).0.confirmed_endpoint
        ≡ codes "10.0.0.7:51820")
unfolding probe_one
probe_one_promotes_example =
    probe_one_promotes (3 * minute) (2 * minute) (codes "10.0.0.7:51820") searching
      searching-IsSound refl refl

-- The ticks of the loop behind `before`, three seconds apart.
abbrev ticks : ℕ → ℕ → List ℕ
ticks before zero = []
ticks before (suc n) = (before + 3 * second) ∷ ticks (before + 3 * second) n

ticks-AreTicks : (before n : ℕ) → AreTicks (3 * second) before (ticks before n)
unfolding AreTicks
ticks-AreTicks before zero = tt
ticks-AreTicks before (suc n) = (omega arith, omega arith, ticks-AreTicks (before + 3 * second) n)

abbrev seeking : ProbeState
seeking = record searching { attempt_at = 10 * minute }

-- Two candidates are given up within 26 seconds.
search_ends_example : GivesUp 0 [] (10 * minute + 26 * second) (ticks (10 * minute) 9) seeking
search_ends_example =
    search_ends 0 [] (3 * second) 1 (10 * minute) (ticks (10 * minute) 9) seeking
      (10 * minute + 26 * second) refl refl (omega arith) (omega arith) (omega arith)
      (ticks-AreTicks (10 * minute) 9) (omega arith) (omega arith)

abbrev late_handshake : Sight
late_handshake = record { now = 5 * minute; handshake = 5 * minute; live = codes "10.0.0.7:51820" }

withdrawal_lasts_example :
    (run (late_handshake ∷ []) (sync_peer minute (codes "b") [] searching)).phase ≡ idle
withdrawal_lasts_example =
    withdrawal_lasts minute (codes "b") searching (late_handshake ∷ []) searching-IsSound refl

abbrev silent : PeerConfig
silent = record { public_key = codes "KB"; endpoint = []; allowed_ips = []; keepalive = 0 }

abbrev probed : PeerConfig
probed = record {
  public_key = codes "KB";
  endpoint = codes "10.0.0.7:51820";
  allowed_ips = [];
  keepalive = 25 * second;
}

abbrev three_ports : List Text
three_ports = codes "22" ∷ codes "80" ∷ codes "443" ∷ []

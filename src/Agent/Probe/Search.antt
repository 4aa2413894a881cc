-- ===== src/Agent/Probe/Search.antt =====
-- Runs of the prober of internal/agent/probe.go.
use mathlib.Core.Path.{subst}
use home_kai.Base.{
  ℕ, zero, suc, ◌+◌, ◌*◌, ◌≤◌, ◌<◌, sym, Text, text_eq, text_eq_iff, true, ◌≡◌, refl, ◌∙◌, ap, List,
  [], ◌∷◌, length, is_empty, all, arith, ◌⊎◌, inl, inr, Bool-cases, leb,
}
use home_kai.Text.{join_csv}
use home_kai.Text.Csv.{is_entry, is_empty-join_csv}
use home_kai.Agent.Probe.{
  ProbeState, idle, probing, take_candidates, sync_peer, probe_one, direct_stale_after,
  candidate_window, retry_after_fail,
}
use home_kai.Agent.Probe.Phases.{IsSound}

-- The steps come one after another, each at most `gap` after the one before.
unfoldable pub AreTicks : ℕ → ℕ → List ℕ → Type 0
AreTicks gap before [] = Unit {0}
AreTicks gap before (now ∷ times) = (before < now) × (now ≤ before + gap) × AreTicks gap now times

-- Where the steps end.
abbrev pub last_time : ℕ → List ℕ → ℕ
last_time before [] = before
last_time before (now ∷ times) = last_time now times

-- The search goes on until a step no later than `deadline`, which ends it and has the next one
-- half an hour away.
pub data GivesUp (hs : ℕ) (live : Text) (deadline : ℕ) : List ℕ → ProbeState → Type 0 where
  ends :
      {now : ℕ} {times : List ℕ} {ps : ProbeState}
      → (probe_one now hs live ps).0.phase ≡ idle
      → (probe_one now hs live ps).0.next_retry_at ≡ now + retry_after_fail
      → now ≤ deadline
      → GivesUp hs live deadline (now ∷ times) ps
  goes_on :
      {now : ℕ} {times : List ℕ} {ps : ProbeState}
      → (probe_one now hs live ps).0.phase ≡ probing
      → GivesUp hs live deadline times (probe_one now hs live ps).0
      → GivesUp hs live deadline (now ∷ times) ps

suc_times : (k c : ℕ) → suc k * c ≡ c + k * c
suc_times k c = grind arith

le_cases : (a b : ℕ) → (a ≤ b) ⊎ (b < a)
le_cases a b = elim (Bool-cases (leb a b)) [
  | inl e ↦ inl (ground (arith, e))
  | inr e ↦ inr (ground (arith, e))
]

module _ (hs : ℕ) (live : Text) where
  -- A step within the window of the candidate changes nothing.
  wait_step :
      (now : ℕ) (ps : ProbeState)
      → ps.phase ≡ probing
      → now ≤ ps.attempt_at + candidate_window
      → hs + direct_stale_after ≤ now
      → (probe_one now hs live ps).0 ≡ ps
  unfolding probe_one
  wait_step now ps p a s = ground arith

  next_step :
      (now k : ℕ) (ps : ProbeState)
      → ps.phase ≡ probing
      → ps.cand_idx + suc (suc k) ≡ length ps.candidates
      → ps.attempt_at + candidate_window < now
      → hs + direct_stale_after ≤ now
      → (probe_one now hs live ps).0 ≡ record ps { cand_idx = ps.cand_idx + 1; attempt_at = now }
  unfolding probe_one
  next_step now k ps p l a s = ground arith

  last_step :
      (now : ℕ) (ps : ProbeState)
      → ps.phase ≡ probing
      → ps.cand_idx + 1 ≡ length ps.candidates
      → ps.attempt_at + candidate_window < now
      → hs + direct_stale_after ≤ now
      → ((probe_one now hs live ps).0.phase ≡ idle)
        × ((probe_one now hs live ps).0.next_retry_at ≡ now + retry_after_fail)
  unfolding probe_one
  last_step now ps p l a s = ground arith

  goes_on_to :
      {deadline now : ℕ} {times : List ℕ} {ps next : ProbeState}
      → (probe_one now hs live ps).0 ≡ next
      → next.phase ≡ probing
      → GivesUp hs live deadline times next
      → GivesUp hs live deadline (now ∷ times) ps
  goes_on_to {deadline} {now} {times} {ps} {next} e p g =
      goes_on (ap (λ (s : ProbeState). s.phase) e ∙ p)
        (subst (GivesUp hs live deadline times) (sym e) g)

  -- While the last handshake stays too old to count, a search with `suc k` candidates left, the
  -- present one included, whose last step lay within the window of the present one, gives up: when
  -- the steps come at most `gap` apart and go on for long enough, one of them ends the search no
  -- later than a window and a gap for each of these candidates after the start of the attempt, and
  -- sets next_retry_at to half an hour after itself.
  pub search_ends :
      (gap k before : ℕ) (times : List ℕ) (ps : ProbeState) (deadline : ℕ)
      → ps.phase ≡ probing
      → ps.cand_idx + suc k ≡ length ps.candidates
      → 0 < gap
      → before ≤ ps.attempt_at + candidate_window
      → hs + direct_stale_after ≤ before
      → AreTicks gap before times
      → ps.attempt_at + suc k * (candidate_window + gap) ≤ deadline
      → deadline ≤ last_time before times
      → GivesUp hs live deadline times ps
  unfolding AreTicks
  search_ends gap k before [] ps deadline p l g b s t d e =
      absurd (omega (arith, suc_times k (candidate_window + gap)))
  search_ends gap zero before (now ∷ times) ps deadline p l g b s (lt, le, ts) d e =
      elim (le_cases now (ps.attempt_at + candidate_window)) [
        | inl within ↦
            goes_on_to (wait_step now ps p within (omega arith)) p
              (search_ends gap zero now times ps deadline p l g within (omega arith) ts d e)
        | inr past ↦
            let (quiet, retry) = last_step now ps p (omega arith) past (omega arith) in
            ends quiet retry (omega (arith, suc_times zero (candidate_window + gap)))
      ]
  search_ends gap (suc k) before (now ∷ times) ps deadline p l g b s (lt, le, ts) d e =
      elim (le_cases now (ps.attempt_at + candidate_window)) [
        | inl within ↦
            goes_on_to (wait_step now ps p within (omega arith)) p
              (search_ends gap (suc k) now times ps deadline p l g within (omega arith) ts d e)
        | inr past ↦
            let tried = record ps { cand_idx = ps.cand_idx + 1; attempt_at = now } in
            goes_on_to (next_step now k ps p l past (omega arith)) p (
              search_ends gap k now times tried deadline p (omega arith) g (omega arith)
                (omega arith) ts (omega (arith, suc_times (suc k) (candidate_window + gap))) e)
      ]

-- What the device shows at one step.
pub record Sight : Type 0 where
  pub now : ℕ
  pub handshake : ℕ
  pub live : Text

unfoldable pub run : List Sight → ProbeState → ProbeState
run [] ps = ps
run (o ∷ os) ps = run os (probe_one o.now o.handshake o.live ps).0

stand_still :
    (now hs : ℕ) (live : Text) (ps : ProbeState)
    → ps.phase ≡ idle
    → is_empty ps.candidates ≡ true
    → (probe_one now hs live ps).0 ≡ ps
unfolding probe_one
stand_still now hs live ps p e = ground arith

stay_relayed :
    (os : List Sight) (ps : ProbeState)
    → ps.phase ≡ idle
    → is_empty ps.candidates ≡ true
    → run os ps ≡ ps
unfolding run
stay_relayed [] ps p e = refl
stay_relayed (o ∷ os) ps p e =
    rw (stand_still o.now o.handshake o.live ps p e) (stay_relayed os ps p e)

-- Only the empty list joins to the same text as the empty list.
same_as_none :
    (xs : List Text)
    → all is_entry xs ≡ true
    → text_eq (join_csv xs) (join_csv []) ≡ true
    → is_empty xs ≡ true
same_as_none [] h k = refl
same_as_none (x ∷ xs) h k =
    let e : join_csv (x ∷ xs) ≡ [] =
      (text_eq_iff (join_csv (x ∷ xs)) (join_csv [])).0 k ∙ unfold join_csv in refl in
    cc (is_empty-join_csv x xs h, ap is_empty e)

-- An empty netmap entry withdraws what the peer had.
pub withdrawn :
    (now : ℕ) (hostname : Text) (ps : ProbeState)
    → IsSound ps
    → all is_entry ps.candidates ≡ true
    → ((sync_peer now hostname [] ps).phase ≡ idle)
      × (is_empty (sync_peer now hostname [] ps).candidates ≡ true)
unfolding sync_peer take_candidates
withdrawn now hostname ps s h = ground (arith, same_as_none ps.candidates h)

-- Once a netmap gives no candidates to a peer whose state is sound and whose candidates are texts
-- without commas, no handshake brings a direct path back: whatever the device shows, the peer stays
-- on the relay path.
pub withdrawal_lasts :
    (now : ℕ) (hostname : Text) (ps : ProbeState) (os : List Sight)
    → IsSound ps
    → all is_entry ps.candidates ≡ true
    → (run os (sync_peer now hostname [] ps)).phase ≡ idle
withdrawal_lasts now hostname ps os s h =
    let w = withdrawn now hostname ps s h in
    rw (stay_relayed os (sync_peer now hostname [] ps) w.0 w.1) w.0

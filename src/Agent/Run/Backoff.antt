-- ===== src/Agent/Run/Backoff.antt =====
-- How long syncLoop of internal/agent/agent.go waits.
use home_kai.Base.{
  ℕ, ◌+◌, ◌*◌, ◌/◌, ◌≤◌, ◌<◌, Bool, true, ◌≡◌, refl, List, [], ◌∷◌, leb, ◌&&◌, arith,
}
use home_kai.Model.{second}
use home_kai.Agent.Iptables.{Iptables}
use home_kai.Agent.Run.{
  Device, Site, Agent, backoff_max, Poll, failed, unchanged, arrived, wait_for, next_backoff,
  take_poll, sync_loop,
}

-- Is the time between a second and a minute?
abbrev is_backoff : ℕ → Bool
is_backoff b = leb second b && leb b backoff_max

next_backoff-bounds :
    (b : ℕ) (p : Poll) → is_backoff b ≡ true → is_backoff (next_backoff b p) ≡ true
unfolding next_backoff
next_backoff-bounds b (failed jitter) h = ground (arith, h)
next_backoff-bounds b unchanged h = refl
next_backoff-bounds b (arrived now nm) h = refl

module _ {dev : Device} {ipt : Iptables} (site : Site dev ipt) where
  sync_loop-bounds :
      (ps : List Poll) (b : ℕ) (a : Agent dev ipt)
      → is_backoff b ≡ true
      → is_backoff (sync_loop site ps b a).0 ≡ true
  unfolding sync_loop
  sync_loop-bounds [] b a h = h
  sync_loop-bounds (p ∷ ps) b a h =
      sync_loop-bounds ps (next_backoff b p) (take_poll site p a) (next_backoff-bounds b p h)

  -- Whatever the calls of the loop came to, it waits between a second and 90 seconds behind a
  -- failure, with a jitter of at most half of the backoff.
  pub backoff_bounds :
      (ps : List Poll) (a : Agent dev ipt) (jitter : ℕ)
      → let b = (sync_loop site ps second a).0 in
        jitter < b / 2 + 1 → (second ≤ wait_for b jitter) × (wait_for b jitter ≤ 90 * second)
  unfolding wait_for
  backoff_bounds ps a jitter h = ground (arith, sync_loop-bounds ps second a refl)

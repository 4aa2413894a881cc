-- ===== src/Server/Enroll/Tokens.antt =====
-- The lifetime of an enroll token in `handleTokenCreate` of internal/coordinator/node.go.
use home_kai.Base.{ℕ, ◌+◌, ◌*◌, ◌^◌, ◌≤◌, ◌<◌, ◌≡◌, arith, ltb, if◌then◌else◌}
use native.Mathlib.Nat.{mod-eq_of_lt}
use home_kai.Base.Int.{ℤ, pos, negsuc}
use home_kai.Model.{second}
use home_kai.Server.Enroll.{max_token_ttl, token_expires}

-- No token outlives a week, whatever lifetime the request asks for.
pub token_expires_bound : (now : ℕ) (ttl : ℤ) → token_expires now ttl ≤ now + max_token_ttl
unfolding token_expires
token_expires_bound now (pos n) = ground arith
token_expires_bound now (negsuc n) = ground arith

-- A lifetime of at least a second that fits 63 bits in nanoseconds is kept, up to a week.
pub token_expires_exact :
    (now n : ℕ)
    → 0 < n
    → n * second < 2 ^ 63
    → token_expires now (pos n)
      ≡ (if ltb max_token_ttl (n * second) then now + max_token_ttl else now + n * second)
unfolding token_expires
token_expires_exact now n p s =
    rw (mod-eq_of_lt {n = n * second} {m = 2 ^ 64} (omega arith)) (ground arith)

-- A lifetime between 2^63 and 2^64 nanoseconds wraps around: the token has expired when it is made.
pub token_expires_wraps :
    (now n : ℕ) → 2 ^ 63 ≤ n * second → n * second < 2 ^ 64 → token_expires now (pos n) ≤ now
unfolding token_expires
token_expires_wraps now n p s = rw (mod-eq_of_lt s) (ground arith)

-- ===== src/Agent/Publish.antt =====
-- internal/agent/publish.go: which ports the hub forwards. Whether net.Listen gets a port is an
-- argument; the copying of bytes is left out.
pub mod Running
use home_kai.Base.{
  ℕ, Text, text_eq, Bool, true, false, not, ◌&&◌, Option, none, some, List, [], ◌∷◌, ◌++◌, any,
  keep, ◌==◌, if◌then◌else◌,
}
use home_kai.Model.{Publish}

-- A Go map from ports to targets, which stands for `want` and for the forwarders that run.
abbrev pub Targets : Type 0
Targets = List (ℕ × Text)

unfoldable pub put_target : ℕ → Text → Targets → Targets
put_target port target [] = (port, target) ∷ []
put_target port target ((p, t) ∷ m) =
    let rest = put_target port target m in if p == port then (p, target) ∷ m else (p, t) ∷ rest

unfoldable pub target_at : ℕ → Targets → Option Text
target_at port [] = none
target_at port ((p, t) ∷ m) = let rest = target_at port m in if p == port then some t else rest

-- the loop that fills `want`
unfoldable pub wanted : Targets → List Publish → Targets
wanted want [] = want
wanted want (p ∷ pubs) = wanted (put_target p.listen_port p.target want) pubs

-- Does a running forwarder have the target that is wanted for its port?
abbrev pub stays : Targets → ℕ × Text → Bool
stays want f = elim (target_at f.0 want) [ none ↦ false | some target ↦ text_eq target f.1 ]

abbrev pub has_port : ℕ → Targets → Bool
has_port port running = any (λ (f : ℕ × Text). f.0 == port) running

module _ (listen : ℕ → Bool) where
  -- the loop that starts the forwarders that are missing
  unfoldable pub start_missing : Targets → Targets → Targets
  start_missing [] running = running
  start_missing ((port, target) ∷ want) running = start_missing want (
      if has_port port running
      then running
      else if listen port
      then (port, target) ∷ running
      else running)

  -- syncPublishes and teardownPublishes
  unfoldable pub sync_publishes : List Publish → Targets → Targets
  sync_publishes pubs running =
      let want = wanted [] pubs in start_missing want (keep (stays want) running)

  unfoldable pub teardown_publishes : Targets → Targets
  teardown_publishes running = sync_publishes [] running

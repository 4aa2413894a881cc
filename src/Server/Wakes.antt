-- ===== src/Server/Wakes.antt =====
-- `bumpNetmap` of internal/coordinator/server.go: the version and the waking of the long polls.
use home_kai.Base.{ℕ, ◌+◌, ◌≤◌, Bool, true, false, ◌≡◌, refl, List, [], ◌∷◌, arith}
use home_kai.Store.Exec.{World, Result, ok, err, ◌>>=◌, catch, pure, throw, sql}
use home_kai.Store.Calls.{bump_netmap_version}
use home_kai.Server.{internal, bump_netmap, notify_netmap_changed}

-- What `bumpNetmap` promises of its result and of the state before and after.
abbrev pub IsBump : World → Result ℕ ℕ → World → Type 0
IsBump w (ok v) w' =
    (v ≡ w.db.netmap_version + 1) × (w'.db.netmap_version ≡ v) × (w'.wakes ≡ w.wakes + 1)
IsBump w (err e) w' = (w.db.netmap_version ≤ w'.db.netmap_version) × (w'.wakes ≡ w.wakes)

-- Whichever calls of the database fail: bumpNetmap gives the version before plus one, has stored it
-- and has woken the long polls once; or it fails, wakes nobody, and the version has not gone down.
pub bump_netmap-IsBump : (w : World) → IsBump w (bump_netmap w).0 (bump_netmap w).1
unfolding bump_netmap ◌>>=◌ catch sql internal bump_netmap_version notify_netmap_changed pure throw
bump_netmap-IsBump w = go w.faults
  where
    go :
        (f : List Bool)
        → IsBump w
            (bump_netmap (record w { faults = f })).0
            (bump_netmap (record w { faults = f })).1
    go [] = (refl, refl, refl)
    go (true ∷ f) = (omega arith, refl)
    go (false ∷ []) = (refl, refl, refl)
    go (false ∷ true ∷ f) = (omega arith, refl)
    go (false ∷ false ∷ f) = (refl, refl, refl)

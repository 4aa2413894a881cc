-- ===== src/Server/Lock/Arming.antt =====
-- `handleLockInit` of internal/coordinator/lock.go and the signatures that are already stored.
use home_kai.Base.{
  ℕ, Text, codes, text_eq, Bool, true, false, ◌&&◌, Option, none, some, ◌≡◌, refl, List, [], ◌∷◌,
  all, all-map_of, length, is_empty, arith,
}
use home_kai.Model.{Node, StaticPeer}
use home_kai.Store.Exec.{Db, World, ◌>>=◌, catch, pure, throw, sql}
use home_kai.Store.Rows.{append_event, trim_events}
use home_kai.Store.Calls.{
  get_lock_pubkey, get_lock_active, set_lock_pubkey, clear_lock_sigs, add_event,
}
use home_kai.Server.{Env, require, or_fail, internal, log_event}
use home_kai.Server.Nodes.{lock_state}
use home_kai.Agent.Lock.{public_key_size}
use home_kai.Server.Lock.{handle_lock_init}

-- No binding has a signature.
abbrev pub all_unsigned : Db → Bool
all_unsigned db =
    all (λ (n : Node). is_empty n.lock_sig) db.nodes
    && all (λ (p : StaticPeer). is_empty p.lock_sig) db.statics

-- A world in which no call of the database fails.
abbrev pub steady : Db → ℕ → List (Text × ℕ) → World
steady db wakes sessions = record { db = db; faults = []; wakes = wakes; sessions = sessions }

none_is_inactive : text_eq [] (codes "1") ≡ false
unfolding text_eq
none_is_inactive = refl

-- The rows of the database, with the key and the state of the lock.
abbrev pub locked : Db → Option Text → Db
locked db key = record db { lock_pubkey = key; lock_active = none }

module _ (env : Env) (key : Text) (now wakes : ℕ) (sessions : List (Text × ℕ)) (db : Db) where
  abbrev pub armed : Option Text → Db
  armed old = (handle_lock_init env (some key) now (steady (locked db old) wakes sessions)).1.db

  -- While the lock is not active and no call of the database fails, arming with a well-formed key
  -- other than the stored one, which is not empty, removes every signature and stores the key.
  pub rearm_clears :
      (raw old : Text)
      → env.crypto.decode key ≡ some raw
      → length raw ≡ public_key_size
      → is_empty old ≡ false
      → text_eq old key ≡ false
      → (all_unsigned (armed (some old)) ≡ true) × ((armed (some old)).lock_pubkey ≡ some key)
  unfolding handle_lock_init ◌>>=◌ catch sql pure throw require or_fail internal lock_state
      get_lock_pubkey get_lock_active set_lock_pubkey clear_lock_sigs log_event add_event
      append_event trim_events
  rearm_clears raw [] k l e d = absurd (ground (arith, e))
  rearm_clears raw (c ∷ old) k l e d =
      rw (armed, handle_lock_init, k, l, d, none_is_inactive)
        (
          ground (
            arith,
            all-map_of (λ (n : Node). is_empty n.lock_sig) (λ n. record n { lock_sig = [] })
                db.nodes (λ n. refl),
            all-map_of (λ (p : StaticPeer). is_empty p.lock_sig) (λ p. record p { lock_sig = [] })
                db.statics (λ p. refl),
          ),
          refl,
        )

  -- While no key is stored, as after the lock was disabled, and no call of the database fails,
  -- arming with a well-formed key stores it and leaves every node and static peer as it was, so
  -- also the signatures of an earlier key.
  pub arm_keeps :
      (raw : Text)
      → env.crypto.decode key ≡ some raw
      → length raw ≡ public_key_size
      → ((armed none).nodes ≡ db.nodes)
        × ((armed none).statics ≡ db.statics)
        × ((armed none).lock_pubkey ≡ some key)
  unfolding handle_lock_init ◌>>=◌ catch sql pure throw require or_fail internal lock_state
      get_lock_pubkey get_lock_active set_lock_pubkey clear_lock_sigs log_event add_event
      append_event trim_events
  arm_keeps raw k l = rw (armed, handle_lock_init, k, l) (refl, refl, refl)

-- ===== src/Agent/Rekey.antt =====
-- internal/agent/rekey.go: the rotation of the WireGuard key. The public key of a private one, the
-- generation of keys, and what the coordinator, the state file and the device do are parameters.
pub mod Steps
use home_kai.Base.{
  ℕ, ◌+◌, ◌-◌, ◌*◌, ◌%◌, ◌^◌, Text, Bool, true, false, not, ◌&&◌, Option, none, some, ltb, is_empty,
  if◌then◌else◌,
}
use home_kai.Model.{second}

-- The keys in the memory of the agent, in its state file, in its device, and at the coordinator.
pub record Keys : Type 0 where
  pub held : Text
  pub held_since : Option ℕ
  pub saved : Text
  pub saved_since : Option ℕ
  pub live : Text
  pub registered : Text

-- What a call of Rekey may come to; `lost` is an answer that does not arrive.
pub data Call : Type 0 where
  accepted : Call
  lost : Call
  rejected : Call

abbrev pub is_accepted : Call → Bool
is_accepted accepted = true
is_accepted _ = false

abbrev pub is_rejected : Call → Bool
is_rejected rejected = true
is_rejected _ = false

-- How the steps of a rotation end: the generated key, the call, the state file, the device.
pub record Outcome : Type 0 where
  pub generated : Option Text
  pub call : Call
  pub saves : Bool
  pub sets : Bool

abbrev pub day : ℕ
day = 24 * 3600 * second

-- time.Since(created) > time.Duration(days) * 24 * time.Hour, where the product is a signed 64-bit
-- number; a key without a date is older than any duration.
abbrev pub older_than : ℕ → Option ℕ → ℕ → Bool
older_than days none now = true
older_than days (some created) now =
    let wrapped = (days * day) % 2 ^ 64 in
    if ltb wrapped (2 ^ 63)
    then ltb (created + wrapped) now
    else ltb created (now + (2 ^ 64 - wrapped))

unfoldable pub is_due : ℕ → Option ℕ → ℕ → Bool
is_due days created now = ltb 0 days && older_than days created now

abbrev hold : Text → ℕ → Keys → Keys
hold pair now w = record {
  held = pair;
  held_since = some now;
  saved = w.saved;
  saved_since = w.saved_since;
  live = w.live;
  registered = w.registered;
}

-- State.Save
abbrev pub save : Bool → Keys → Keys
save ok w =
    if ok
    then record {
      held = w.held;
      held_since = w.held_since;
      saved = w.held;
      saved_since = w.held_since;
      live = w.live;
      registered = w.registered;
    }
    else w

abbrev set_private_key : Text → Bool → Keys → Keys
set_private_key pair ok w =
    if ok
    then record {
      held = w.held;
      held_since = w.held_since;
      saved = w.saved;
      saved_since = w.saved_since;
      live = pair;
      registered = w.registered;
    }
    else w

abbrev record_key : Text → ℕ → Outcome → Keys → Bool × Keys
record_key pair now o w =
    if o.saves
    then (o.sets, set_private_key pair o.sets (save true (hold pair now w)))
    else (false, hold pair now w)

abbrev date_key : ℕ → Bool → Keys → Keys
date_key now saves w = elim w.held_since [ some since ↦ w | none ↦ save saves (hold w.held now w) ]

module _ (public_key : Text → Text) where
  unfoldable pub rekey : Call → Text → Keys → Bool × Keys
  rekey call pair w = (
    is_accepted call,
    if is_rejected call then w else record {
      held = w.held;
      held_since = w.held_since;
      saved = w.saved;
      saved_since = w.saved_since;
      live = w.live;
      registered = public_key pair;
    },
  )

  -- rotateKey
  unfoldable pub rotate_key : ℕ → Outcome → Keys → Bool × Keys
  rotate_key now o w = elim o.generated [
    | none ↦ (false, w)
    | some pair ↦
        let called = rekey o.call pair w in
        if called.0 then record_key pair now o called.1 else called
  ]

  -- one check of `rekeyLoop`; `locked` is `lockEnabled`
  unfoldable pub check_rotation : ℕ → Bool → ℕ → Outcome → Keys → Keys
  check_rotation days locked now o w =
      if is_due days w.held_since now && not locked then (rotate_key now o w).1 else w

  -- The start of `rekeyLoop`, for a private key that parses.
  unfoldable pub start_rekey_loop : ℕ → Call → Bool → Keys → Keys
  start_rekey_loop now call saves w = date_key now saves (rekey call w.held w).1

  -- RotateStateKey, on the state that was loaded; the daemon is stopped
  unfoldable pub rotate_state_key : ℕ → Outcome → Keys → Bool × Keys
  rotate_state_key now o w = elim o.generated [
    | none ↦ (false, w)
    | some pair ↦
        let called = rekey o.call pair w in
        if called.0 then (o.saves, save o.saves (hold pair now called.1)) else called
  ]

-- A start of the daemon: LoadState, and a device with the key of the state.
unfoldable pub restart : Keys → Keys
restart w = record {
  held = w.saved;
  held_since = w.saved_since;
  saved = w.saved;
  saved_since = w.saved_since;
  live = w.saved;
  registered = w.registered;
}

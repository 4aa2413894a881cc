-- ===== src/Agent/Rekey/Steps.antt =====
-- The agreement of the device and the coordinator while internal/agent/rekey.go rotates keys.
use home_kai.Base.{
  ℕ, ◌+◌, ◌*◌, ◌^◌, ◌≤◌, ◌<◌, Text, text_eq, text_eq_refl, Bool, true, false, ◌&&◌, ◌||◌, some, ◌≡◌,
  arith, all, List, [], ◌∷◌, Option-cases, inl, inr,
}
use home_kai.Agent.Rekey.{
  Keys, accepted, is_accepted, is_rejected, Outcome, day, is_due, rekey, rotate_key, check_rotation,
  start_rekey_loop, restart,
}

-- A rotation that the coordinator refuses, or all of whose steps succeed.
abbrev pub is_clean : Outcome → Bool
is_clean o = is_rejected o.call || (is_accepted o.call && o.saves && o.sets)

-- What one check of the loop meets: the pinned lock, the time, and how a rotation would end.
pub record Check : Type 0 where
  pub locked : Bool
  pub now : ℕ
  pub outcome : Outcome

module _ (public_key : Text → Text) where
  -- Do the peers that take the key from the coordinator reach the device?
  abbrev pub in_step : Keys → Bool
  in_step w = text_eq w.registered (public_key w.live)

  -- When the device has the key that the coordinator has, and a rotation generates one with another
  -- public key, they agree afterwards exactly when the coordinator refused the key, or the answer
  -- arrived, the state was saved and the device took the key.
  pub rotate_key_exact :
      (now : ℕ) (o : Outcome) (pair : Text) (w : Keys)
      → o.generated ≡ some pair
      → text_eq (public_key pair) (public_key w.live) ≡ false
      → in_step w ≡ true
      → in_step (rotate_key public_key now o w).1
        ≡ (is_rejected o.call || (is_accepted o.call && o.saves && o.sets))
  unfolding rotate_key rekey
  rotate_key_exact now o pair w g new h =
      rw g (ground (arith, h, new, text_eq_refl (public_key pair)))

  rotate_key-in_step :
      (now : ℕ) (o : Outcome) (w : Keys)
      → is_clean o ≡ true
      → in_step w ≡ true
      → in_step (rotate_key public_key now o w).1 ≡ true
  unfolding rotate_key rekey
  rotate_key-in_step now o w c h = elim (Option-cases o.generated) [
    | inl g ↦ rw g h
    | inr (pair, g) ↦ rw g (ground (arith, h, c, text_eq_refl (public_key pair)))
  ]

  abbrev pub run_checks : ℕ → List Check → Keys → Keys
  run_checks days [] w = w
  run_checks days (c ∷ cs) w =
      run_checks days cs (check_rotation public_key days c.locked c.now c.outcome w)

  check_rotation-in_step :
      (days : ℕ) (c : Check) (w : Keys)
      → is_clean c.outcome ≡ true
      → in_step w ≡ true
      → in_step (check_rotation public_key days c.locked c.now c.outcome w) ≡ true
  unfolding check_rotation
  check_rotation-in_step days c w k h = ground (arith, h, rotate_key-in_step c.now c.outcome w k h)

  run_checks-in_step :
      (days : ℕ) (cs : List Check) (w : Keys)
      → all (λ (c : Check). is_clean c.outcome) cs ≡ true
      → in_step w ≡ true
      → in_step (run_checks days cs w) ≡ true
  run_checks-in_step days [] w k h = h
  run_checks-in_step days (c ∷ cs) w k h =
      run_checks-in_step days cs (check_rotation public_key days c.locked c.now c.outcome w)
        (ground (arith, k)) (check_rotation-in_step days c w (ground (arith, k)) h)

  start_in_step :
      (now : ℕ) (saves : Bool) (w : Keys)
      → in_step (start_rekey_loop public_key now accepted saves (restart w)) ≡ true
  unfolding start_rekey_loop rekey restart
  start_in_step now saves w = ground (arith, text_eq_refl (public_key w.saved))

  -- Whatever state earlier rotations left, after a start of the daemon whose call of Rekey is
  -- accepted the coordinator has the key of the device, and still has it after any checks of the
  -- loop whose rotations are refused or succeed in every step.
  pub start_heals :
      (now : ℕ) (saves : Bool) (days : ℕ) (cs : List Check) (w : Keys)
      → all (λ (c : Check). is_clean c.outcome) cs ≡ true
      → in_step (run_checks days cs (start_rekey_loop public_key now accepted saves (restart w)))
        ≡ true
  start_heals now saves days cs w h =
      run_checks-in_step days cs (start_rekey_loop public_key now accepted saves (restart w)) h
        (start_in_step now saves w)

  -- A rotation with another public key that the coordinator accepted and whose state could not be
  -- saved leaves the device with a key that the coordinator does not have, and no check of the loop
  -- changes the keys until the period of rotation has passed, where the period in nanoseconds fits
  -- 63 bits.
  pub unsaved_rotation_sticks :
      (days now later : ℕ) (locked : Bool) (o o' : Outcome) (pair : Text) (w : Keys)
      → o.generated ≡ some pair
      → is_accepted o.call ≡ true
      → o.saves ≡ false
      → text_eq (public_key pair) (public_key w.live) ≡ false
      → days * day < 2 ^ 63
      → later ≤ now + days * day
      → let w' = (rotate_key public_key now o w).1 in
        (in_step w' ≡ false) × (check_rotation public_key days locked later o' w' ≡ w')
  unfolding rotate_key rekey check_rotation is_due
  unsaved_rotation_sticks days now later locked o o' pair w g a s new b l =
      rw g (ground (arith, a, s, new), ground (arith, a, s, b, l))

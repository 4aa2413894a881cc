-- ===== src/Agent/Iptables/Hooks.antt =====
-- `ensure` and the jumps of internal/agent/nat_linux.go, on an iptables that does what its
-- documentation says.
use home_kai.Base.{
  Text, codes, text_eq, text_eq_refl, Bool, true, false, not, ◌≡◌, refl, List, [], ◌∷◌, all, arith,
}
use home_kai.Agent.Filterspec.{Spec}
use home_kai.Agent.Iptables.{Iptables, Rule, filter_table, run_rule, ensure, each, Hook, hook_rule}
use home_kai.Agent.Iptables.Laws.{Documented, same_spec, has, is_at}

same_spec_refl : (s : Spec) → same_spec s s ≡ true
unfolding same_spec
same_spec_refl [] = refl
same_spec_refl (x ∷ s) = ground (arith, text_eq_refl x, same_spec_refl s)

module _ {ipt : Iptables} (d : Documented ipt) where
  open d use {view}

  ensure-keeps :
      (r : Rule) (k : ipt.Kernel) (t c : Text)
      → is_at r t c ≡ false
      → view (ensure ipt r k).1 t c ≡ view k t c
  unfolding ensure
  ensure-keeps r k t c h =
      ground (arith, d.check_keeps r k t c, d.inserts r (run_rule ipt (codes "-C") r k).1 t c)

  -- A rule that was ensured is there.
  pub ensure-has :
      (r : Rule) (k : ipt.Kernel)
      → (ensure ipt r k).0 ≡ true
      → has r.spec (view (ensure ipt r k).1 r.table r.chain) ≡ true
  unfolding ensure
  ensure-has r k h =
      let k1 = (run_rule ipt (codes "-C") r k).1 in
      ground (
        arith,
        d.checks r k,
        d.check_keeps r k r.table r.chain,
        d.inserts r k1 r.table r.chain,
        d.insert_finds_chain r k1,
        text_eq_refl r.table,
        text_eq_refl r.chain,
        same_spec_refl r.spec,
      )

  -- An ensured rule takes no other away.
  ensure-has_still :
      (r : Rule) (k : ipt.Kernel) (spec : Spec) (t c : Text)
      → has spec (view k t c) ≡ true
      → has spec (view (ensure ipt r k).1 t c) ≡ true
  unfolding ensure
  ensure-has_still r k spec t c h =
      let k1 = (run_rule ipt (codes "-C") r k).1 in
      ground (arith, d.check_keeps r k t c, d.inserts r k1 t c)

  -- The rules of hooks.
  abbrev pub hooked : List Hook → ipt.Kernel → Bool × ipt.Kernel
  hooked hooks k = each ipt (λ h. ensure ipt (hook_rule h)) hooks k

  abbrev pub is_hooked : ipt.Kernel → Hook → Bool
  is_hooked k h = has h.1 (view k filter_table h.0)

  hooked-has_still :
      (hooks : List Hook) (k : ipt.Kernel) (spec : Spec) (t c : Text)
      → has spec (view k t c) ≡ true
      → has spec (view (hooked hooks k).1 t c) ≡ true
  unfolding each
  hooked-has_still [] k spec t c h = h
  hooked-has_still (x ∷ hooks) k spec t c h = ground (
    arith,
    ensure-has_still (hook_rule x) k spec t c h,
    hooked-has_still hooks (ensure ipt (hook_rule x) k).1 spec t c,
  )

  pub all-hooked :
      (hooks : List Hook) (k : ipt.Kernel)
      → (hooked hooks k).0 ≡ true
      → all (is_hooked (hooked hooks k).1) hooks ≡ true
  unfolding each
  all-hooked [] k h = refl
  all-hooked ((parent, spec) ∷ hooks) k h =
      let k' = (ensure ipt (hook_rule (parent, spec)) k).1 in
      ground (
        arith,
        ensure-has (hook_rule (parent, spec)) k,
        hooked-has_still hooks k' spec filter_table parent,
        all-hooked hooks k',
      )

  pub hooked-keeps :
      (hooks : List Hook) (k : ipt.Kernel) (c : Text)
      → all (λ (h : Hook). not (text_eq h.0 c)) hooks ≡ true
      → view (hooked hooks k).1 filter_table c ≡ view k filter_table c
  unfolding each
  hooked-keeps [] k c h = refl
  hooked-keeps ((parent, spec) ∷ hooks) k c h =
      let r = hook_rule (parent, spec) in
      ground (arith, ensure-keeps r k filter_table c, hooked-keeps hooks (ensure ipt r k).1 c)

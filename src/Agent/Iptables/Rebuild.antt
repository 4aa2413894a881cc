-- ===== src/Agent/Iptables/Rebuild.antt =====
-- `rebuildFilterChain` of internal/agent/nat_linux.go, on an iptables that does what its
-- documentation says.
use home_kai.Base.{
  ℕ, suc, Text, codes, text_eq, text_eq_refl, Bool, true, false, not, some, ◌≡◌, refl, sym, ap, ◌∙◌,
  ◌⊎◌, inl, inr, List, [], ◌∷◌, ◌++◌, all, take, arith, if◌then◌else◌, Bool-cases,
}
use mathlib.Core.List.{append_assoc, append-nil}
use home_kai.Agent.Filterspec.{Spec}
use home_kai.Agent.Iptables.{
  Iptables, filter_table, each, chain_command, append_spec, Hook, rebuild_enabled,
}
use home_kai.Agent.Iptables.Laws.{Documented}
use home_kai.Agent.Iptables.Hooks.{is_hooked, all-hooked, hooked-keeps}

module _ {ipt : Iptables} (d : Documented ipt) where
  open d use {view}

  module _ (chain : Text) where
    abbrev appended : List Spec → ipt.Kernel → Bool × ipt.Kernel
    appended specs k = each ipt (append_spec ipt chain) specs k

    -- Appending stops at the first failure: how many rules it has added.
    added : List Spec → ipt.Kernel → ℕ
    added [] k = 0
    added (s ∷ ss) k =
        let rest = added ss (append_spec ipt chain s k).1 in
        if (append_spec ipt chain s k).0 then suc rest else 0

    appended-take :
        (specs done : List Spec) (k : ipt.Kernel)
        → view k filter_table chain ≡ some done
        → view (appended specs k).1 filter_table chain ≡ some (done ++ take (added specs k) specs)
    unfolding each added
    appended-take [] done k h = h ∙ ap some (sym (append-nil done))
    appended-take (s ∷ ss) done k h = elim (Bool-cases (append_spec ipt chain s k).0) [
      | inl e ↦
          rw (e, each, added)
            (appended-take ss (done ++ s ∷ []) (append_spec ipt chain s k).1 (
                d.appends chain s k filter_table chain
                ∙ rw (e, h) (ground (arith, text_eq_refl filter_table, text_eq_refl chain)))
              ∙ ap some
                  (append_assoc done (s ∷ []) (take (added ss (append_spec ipt chain s k).1) ss)))
      | inr e ↦
          rw (e, each, added)
            (d.appends chain s k filter_table chain ∙ rw e (h ∙ ap some (sym (append-nil done))))
    ]

    added_all :
        (specs : List Spec) (k : ipt.Kernel)
        → (appended specs k).0 ≡ true
        → take (added specs k) specs ≡ specs
    unfolding each added
    added_all [] k h = refl
    added_all (s ∷ ss) k h = ground (arith, added_all ss (append_spec ipt chain s k).1)

    -- What stands in the chain after it was made and flushed.
    abbrev flushed : ipt.Kernel → Bool × ipt.Kernel
    flushed k = chain_command ipt (codes "-F") chain (chain_command ipt (codes "-N") chain k).1

    flushed-empty :
        (k : ipt.Kernel) → (flushed k).0 ≡ true → view (flushed k).1 filter_table chain ≡ some []
    flushed-empty k h =
        d.flushes chain (chain_command ipt (codes "-N") chain k).1 filter_table chain
        ∙ rw h (ground (arith, text_eq_refl filter_table, text_eq_refl chain))

    -- A rebuild that succeeds, with hooks in other chains, leaves exactly the new rules in the
    -- chain, and every hook.
    pub rebuild_exact :
        (hooks : List Hook) (specs : List Spec) (k : ipt.Kernel)
        → all (λ (h : Hook). not (text_eq h.0 chain)) hooks ≡ true
        → (rebuild_enabled ipt chain hooks specs k).0 ≡ true
        → (view (rebuild_enabled ipt chain hooks specs k).1 filter_table chain ≡ some specs)
          × (all (is_hooked d (rebuild_enabled ipt chain hooks specs k).1) hooks ≡ true)
    unfolding rebuild_enabled
    rebuild_exact hooks specs k apart h =
        let a = (flushed k).1 in
        let b = (appended specs a).1 in
        (
          ground (
            arith,
            flushed-empty k,
            appended-take specs [] a,
            added_all specs a,
            hooked-keeps d hooks b chain apart,
          ),
          ground (arith, all-hooked d hooks b),
        )

    -- With an iptables that does what its documentation says, and hooks in other chains, a rebuild
    -- of a chain that fails leaves the chain as it was, or with the first ones of the new rules
    -- only, possibly none of them.
    pub rebuild_stops :
        (hooks : List Hook) (specs : List Spec) (k : ipt.Kernel)
        → all (λ (h : Hook). not (text_eq h.0 chain)) hooks ≡ true
        → (rebuild_enabled ipt chain hooks specs k).0 ≡ false
        → let now = view (rebuild_enabled ipt chain hooks specs k).1 filter_table chain in
          (now ≡ view k filter_table chain) ⊎ ((n : ℕ) × (now ≡ some (take n specs)))
    unfolding rebuild_enabled
    rebuild_stops hooks specs k apart h = elim (Bool-cases (flushed k).0) [
      | inl e ↦
          let a = (flushed k).1 in
          let b = (appended specs a).1 in
          inr (
            added specs a,
            ground (
              arith,
              e,
              flushed-empty k,
              appended-take specs [] a,
              hooked-keeps d hooks b chain apart,
            ),
          )
      | inr e ↦ elim (Bool-cases (chain_command ipt (codes "-N") chain k).0) [
        | inl m ↦ inr (
          0,
          ground (
            arith,
            e,
            m,
            d.flushes chain (chain_command ipt (codes "-N") chain k).1 filter_table chain,
            d.makes chain k filter_table chain,
            text_eq_refl filter_table,
            text_eq_refl chain,
          ),
        )
        | inr m ↦ inl (
            ground (
              arith,
              e,
              m,
              d.flushes chain (chain_command ipt (codes "-N") chain k).1 filter_table chain,
              d.makes chain k filter_table chain,
            ))
      ]
    ]

    appended-keeps :
        (specs : List Spec) (k : ipt.Kernel) (c : Text)
        → text_eq chain c ≡ false
        → view (appended specs k).1 filter_table c ≡ view k filter_table c
    unfolding each
    appended-keeps [] k c h = refl
    appended-keeps (s ∷ ss) k c h = ground (
      arith,
      d.appends chain s k filter_table c,
      appended-keeps ss (append_spec ipt chain s k).1 c h,
    )

    -- Rebuilding a chain leaves the chains alone that are neither it nor a parent of a hook.
    pub rebuild-keeps :
        (hooks : List Hook) (specs : List Spec) (k : ipt.Kernel) (c : Text)
        → text_eq chain c ≡ false
        → all (λ (h : Hook). not (text_eq h.0 c)) hooks ≡ true
        → view (rebuild_enabled ipt chain hooks specs k).1 filter_table c ≡ view k filter_table c
    unfolding rebuild_enabled
    rebuild-keeps hooks specs k c h apart =
        let m = (chain_command ipt (codes "-N") chain k).1 in
        let a = (flushed k).1 in
        let b = (appended specs a).1 in
        ground (
          arith,
          d.makes chain k filter_table c,
          d.flushes chain m filter_table c,
          appended-keeps specs a c h,
          hooked-keeps d hooks b c apart,
        )

-- ===== src/Agent/Firewall/Enforced.antt =====
-- What stands in the chains after applyFilter of internal/agent/nat_linux.go, and what it does.
use home_kai.Base.{
  Text, codes, text_eq, Bool, true, false, not, some, ◌≡◌, refl, ap, ◌∙◌, List, [], ◌∷◌, map, all,
  arith, all-append, all-map_of, is_empty, if◌then◌else◌,
}
use home_kai.Model.{FilterRule, ForwardRule}
use home_kai.Agent.Filterspec.{filter_chain_specs, forward_chain_specs}
use home_kai.Agent.Iptables.{
  Iptables, filter_table, chain_command, Hook, rebuild_enabled, rebuild_filter_chain,
}
use home_kai.Agent.Iptables.Laws.{Documented, has}
use home_kai.Agent.Iptables.Rebuild.{rebuild_exact, rebuild-keeps}
use home_kai.Agent.Firewall.{
  Router, filter_chain, forward_filter_chain, input_hooks, forward_hooks, pick_forward_chain,
  apply_filter,
}

-- The parents that `forwardChain` may pick are neither of the chains of the agent, nor INPUT.
abbrev IsParent : Text → Type 0
IsParent fwd =
    all (λ (c : Text). not (text_eq fwd c))
      (filter_chain ∷ forward_filter_chain ∷ codes "INPUT" ∷ [])
    ≡ true

module _ (fwd : Text) (a : Router) where
  hooks_apart :
      (c : Text)
      → text_eq fwd c ≡ false
      → all (λ (h : Hook). not (text_eq h.0 c)) (forward_hooks fwd a) ≡ true
  unfolding forward_hooks
  hooks_apart c h =
      all-append (λ (h : Hook). not (text_eq h.0 c))
        (if a.is_hub
          then (
            fwd,
            codes "-i" ∷ a.iface ∷ codes "-o" ∷ a.iface ∷ codes "-j" ∷ forward_filter_chain ∷ [],
          )
            ∷ []
          else [])
        (map
          (λ rt.
            (fwd, codes "-i" ∷ a.iface ∷ codes "-d" ∷ rt ∷ codes "-j" ∷ forward_filter_chain ∷ []))
          a.advertise_routes)
      ∙ ground (
        arith,
        h,
        all-map_of (λ (h : Hook). not (text_eq h.0 c))
            (λ rt. (
              fwd,
              codes "-i" ∷ a.iface ∷ codes "-d" ∷ rt ∷ codes "-j" ∷ forward_filter_chain ∷ [],
            ))
            a.advertise_routes (λ rt. ap not h),
      )

IsParent-picked : (found : Bool) → IsParent (if found then codes "DOCKER-USER" else codes "FORWARD")
unfolding text_eq
IsParent-picked true = refl
IsParent-picked false = refl

input_apart :
    (a : Router)
    → (all (λ (h : Hook). not (text_eq h.0 filter_chain)) (input_hooks a) ≡ true)
      × (text_eq forward_filter_chain filter_chain ≡ false)
      × (text_eq forward_filter_chain (codes "INPUT") ≡ false)
unfolding text_eq
input_apart a = (refl, refl, refl)

module _ {ipt : Iptables} (d : Documented ipt) (a : Router) (input : List FilterRule)
    (forward : List ForwardRule) (k : ipt.Kernel) where
  open d use {view}

  -- The state after the inbound leg, and the parent of the forward leg.
  abbrev inbound : Bool × ipt.Kernel
  inbound = rebuild_enabled ipt filter_chain (input_hooks a) (filter_chain_specs input) k

  abbrev listed : Text × ipt.Kernel
  listed = pick_forward_chain ipt inbound.1

  listed-IsParent : IsParent listed.0
  unfolding pick_forward_chain
  listed-IsParent =
      IsParent-picked (chain_command ipt (codes "-nL") (codes "DOCKER-USER") inbound.1).0

  listed-view : (c : Text) → view listed.1 filter_table c ≡ view inbound.1 filter_table c
  unfolding pick_forward_chain
  listed-view c = d.lists (codes "DOCKER-USER") inbound.1 filter_table c

  abbrev applied : Bool × ipt.Kernel
  applied = apply_filter ipt a true input forward k

  -- The forward leg leaves the inbound leg alone.
  applied-keeps :
      (c : Text)
      → text_eq forward_filter_chain c ≡ false
      → text_eq listed.0 c ≡ false
      → inbound.0 ≡ true
      → view applied.1 filter_table c ≡ view inbound.1 filter_table c
  unfolding apply_filter rebuild_filter_chain
  applied-keeps c h h' ok = ground (
    arith,
    listed-view c,
    rebuild-keeps d forward_filter_chain (forward_hooks listed.0 a) (forward_chain_specs forward)
        listed.1 c h (hooks_apart listed.0 a c h'),
  )

  applied-inbound : applied.0 ≡ true → inbound.0 ≡ true
  unfolding apply_filter rebuild_filter_chain
  applied-inbound h = ground (arith)

  -- With an iptables that does what its documentation says, a call of applyFilter that turns the
  -- filter on and succeeds leaves the inbound chain with the rules of filterChainSpecs in their
  -- order and no others, and the jump from INPUT to it.
  pub filter_applied :
      applied.0 ≡ true
      → (view applied.1 filter_table filter_chain ≡ some (filter_chain_specs input))
        × (all (λ (h : Hook). has h.1 (view applied.1 filter_table h.0)) (input_hooks a) ≡ true)
  filter_applied h =
      let p = listed-IsParent in
      let (own, fwd_own, fwd_input) = input_apart a in
      let ok = applied-inbound h in
      let (exact, hooked) =
        rebuild_exact d filter_chain (input_hooks a) (filter_chain_specs input) k own ok in
      (
        applied-keeps filter_chain fwd_own (ground (arith, p)) ok ∙ exact,
        ground (arith, applied-keeps (codes "INPUT") fwd_input (ground (arith, p)) ok, hooked),
      )

  -- With an iptables that does what its documentation says, a call of applyFilter that turns the
  -- filter on and succeeds leaves the forward chain, where the node forwards at all, with the rules
  -- of forwardChainSpecs in their order and no others, and every jump to it.
  pub forward_applied :
      applied.0 ≡ true
      → is_empty (forward_hooks listed.0 a) ≡ false
      → (view applied.1 filter_table forward_filter_chain ≡ some (forward_chain_specs forward))
        × (all (λ (h : Hook). has h.1 (view applied.1 filter_table h.0)) (forward_hooks listed.0 a)
            ≡ true)
  unfolding apply_filter rebuild_filter_chain
  forward_applied h e =
      let p = listed-IsParent in
      let apart = hooks_apart listed.0 a forward_filter_chain (ground (arith, p)) in
      let r =
        rebuild_exact d forward_filter_chain (forward_hooks listed.0 a)
          (forward_chain_specs forward) listed.1 apart in
      (ground (arith, h, e, r), ground (arith, h, e, r))

-- ===== src/Agent/Iptables.antt =====
-- The calls of iptables that internal/agent/nat_linux.go makes. The program iptables is a parameter:
-- its state, and what a command line does to it.
pub mod Laws
pub mod Hooks
pub mod Rebuild
use home_kai.Base.{
  ℕ, Text, codes, text_eq, Bool, true, false, not, ◌&&◌, ◌||◌, Option, none, some, ◌≡◌, List, [],
  ◌∷◌, ◌++◌, any, map, if◌then◌else◌,
}
use home_kai.Agent.Filterspec.{Spec}

-- `run args k` tells whether the command succeeded, and the state afterwards.
pub record Iptables : Type 1 where
  pub Kernel : Type 0
  pub run : List Text → Kernel → Bool × Kernel

-- iptablesRule
pub record Rule : Type 0 where
  pub table : Text
  pub chain : Text
  pub spec : Spec

abbrev pub filter_table : Text
filter_table = codes "filter"

-- chainHook: the parent, and the rule that jumps
abbrev pub Hook : Type 0
Hook = Text × Spec

abbrev pub hook_rule : Hook → Rule
hook_rule (parent, spec) = record { table = filter_table; chain = parent; spec = spec }

module _ (ipt : Iptables) where
  open ipt use {Kernel, run}

  -- iptablesRule.run
  unfoldable pub run_rule : Text → Rule → Kernel → Bool × Kernel
  run_rule op r k = run (codes "-t" ∷ r.table ∷ op ∷ r.chain ∷ r.spec) k

  abbrev insert_missing : Rule → Bool × Kernel → Bool × Kernel
  insert_missing r (found, k) = elim found [ true ↦ (true, k) | false ↦ run_rule (codes "-I") r k ]

  -- iptablesRule.ensure
  unfoldable pub ensure : Rule → Kernel → Bool × Kernel
  ensure r k = insert_missing r (run_rule (codes "-C") r k)

  abbrev delete_found : Rule → Bool × Kernel → Kernel
  delete_found r (found, k) = elim found [ true ↦ (run_rule (codes "-D") r k).1 | false ↦ k ]

  -- iptablesRule.remove
  unfoldable pub remove : Rule → Kernel → Kernel
  remove r k = delete_found r (run_rule (codes "-C") r k)

  -- a loop that returns at the first error
  unfoldable pub each {ℓ} :
      {A : Type ℓ} → (A → Kernel → Bool × Kernel) → List A → Kernel → Bool × Kernel
  each f [] k = (true, k)
  each f (x ∷ xs) k = elim (f x k).0 [ true ↦ each f xs (f x k).1 | false ↦ (false, (f x k).1) ]

  unfoldable pub remove_all : List Rule → Kernel → Kernel
  remove_all [] k = k
  remove_all (r ∷ rs) k = remove_all rs (remove r k)

  abbrev pub chain_command : Text → Text → Kernel → Bool × Kernel
  chain_command op chain k = run (codes "-t" ∷ filter_table ∷ op ∷ chain ∷ []) k

  abbrev pub append_spec : Text → Spec → Kernel → Bool × Kernel
  append_spec chain spec k = run (codes "-t" ∷ filter_table ∷ codes "-A" ∷ chain ∷ spec) k

  abbrev then_run : (Kernel → Bool × Kernel) → Bool × Kernel → Bool × Kernel
  then_run f r = elim r.0 [ true ↦ f r.1 | false ↦ (false, r.1) ]

  -- rebuildFilterChain, with the filter on and off
  unfoldable pub rebuild_enabled : Text → List Hook → List Spec → Kernel → Bool × Kernel
  rebuild_enabled chain hooks specs k =
      let made = (chain_command (codes "-N") chain k).1 in
      then_run
        (λ a. then_run (each (λ h. ensure (hook_rule h)) hooks) (each (append_spec chain) specs a))
        (chain_command (codes "-F") chain made)

  unfoldable pub rebuild_disabled : Text → List Hook → Kernel → Bool × Kernel
  rebuild_disabled chain hooks k =
      let unhooked = remove_all (map hook_rule hooks) k in
      (true, (chain_command (codes "-X") chain (chain_command (codes "-F") chain unhooked).1).1)

  unfoldable pub rebuild_filter_chain : Text → List Hook → Bool → List Spec → Kernel → Bool × Kernel
  rebuild_filter_chain chain hooks enabled specs k =
      if enabled then rebuild_enabled chain hooks specs k else rebuild_disabled chain hooks k

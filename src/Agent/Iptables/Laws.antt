-- ===== src/Agent/Iptables/Laws.antt =====
-- What the documentation of iptables says of the commands that internal/agent/nat_linux.go uses.
use home_kai.Base.{
  Text, codes, text_eq, Bool, true, false, ◌&&◌, Option, none, some, ◌≡◌, List, [], ◌∷◌, ◌++◌, any,
  if◌then◌else◌,
}
use home_kai.Agent.Filterspec.{Spec}
use home_kai.Agent.Iptables.{Iptables, Rule, filter_table, run_rule, chain_command, append_spec}

-- Two rules are the same when their arguments are.
unfoldable pub same_spec : Spec → Spec → Bool
same_spec [] [] = true
same_spec [] (y ∷ t) = false
same_spec (x ∷ s) [] = false
same_spec (x ∷ s) (y ∷ t) = let rest = same_spec s t in text_eq x y && rest

-- Is the rule in the chain? A missing chain has none.
abbrev pub has : Spec → Option (List Spec) → Bool
has spec none = false
has spec (some specs) = any (same_spec spec) specs

abbrev pub map_chain : (List Spec → List Spec) → Option (List Spec) → Option (List Spec)
map_chain f none = none
map_chain f (some specs) = some (f specs)

unfoldable pub delete_first : Spec → List Spec → List Spec
delete_first spec [] = []
delete_first spec (s ∷ ss) =
    let rest = delete_first spec ss in if same_spec spec s then ss else s ∷ rest

abbrev pub is_at : Rule → Text → Text → Bool
is_at r t c = text_eq r.table t && text_eq r.chain c

-- `view k table chain` lists the rules of a chain in their order, if the chain is there. A command
-- that fails changes nothing.
pub record Documented (ipt : Iptables) : Type 0 where
  pub view : ipt.Kernel → Text → Text → Option (List Spec)
  pub checks :
      (r : Rule) (k : ipt.Kernel)
      → (run_rule ipt (codes "-C") r k).0 ≡ has r.spec (view k r.table r.chain)
  pub check_keeps :
      (r : Rule) (k : ipt.Kernel) (t c : Text)
      → view (run_rule ipt (codes "-C") r k).1 t c ≡ view k t c
  pub inserts :
      (r : Rule) (k : ipt.Kernel) (t c : Text)
      → view (run_rule ipt (codes "-I") r k).1 t c ≡ (
          if (run_rule ipt (codes "-I") r k).0 && is_at r t c
          then map_chain (λ ss. r.spec ∷ ss) (view k t c)
          else view k t c)
  pub insert_finds_chain :
      (r : Rule) (k : ipt.Kernel)
      → view k r.table r.chain ≡ none
      → (run_rule ipt (codes "-I") r k).0 ≡ false
  pub deletes :
      (r : Rule) (k : ipt.Kernel) (t c : Text)
      → view (run_rule ipt (codes "-D") r k).1 t c ≡ (
          if (run_rule ipt (codes "-D") r k).0 && is_at r t c
          then map_chain (delete_first r.spec) (view k t c)
          else view k t c)
  pub appends :
      (chain : Text) (spec : Spec) (k : ipt.Kernel) (t c : Text)
      → view (append_spec ipt chain spec k).1 t c ≡ (
          if (append_spec ipt chain spec k).0 && (text_eq filter_table t && text_eq chain c)
          then map_chain (λ ss. ss ++ spec ∷ []) (view k t c)
          else view k t c)
  pub makes :
      (chain : Text) (k : ipt.Kernel) (t c : Text)
      → view (chain_command ipt (codes "-N") chain k).1 t c ≡ (
          if (chain_command ipt (codes "-N") chain k).0
            && (text_eq filter_table t && text_eq chain c)
          then some []
          else view k t c)
  pub flushes :
      (chain : Text) (k : ipt.Kernel) (t c : Text)
      → view (chain_command ipt (codes "-F") chain k).1 t c ≡ (
          if (chain_command ipt (codes "-F") chain k).0
            && (text_eq filter_table t && text_eq chain c)
          then some []
          else view k t c)
  pub drops_chain :
      (chain : Text) (k : ipt.Kernel) (t c : Text)
      → view (chain_command ipt (codes "-X") chain k).1 t c ≡ (
          if (chain_command ipt (codes "-X") chain k).0
            && (text_eq filter_table t && text_eq chain c)
          then none
          else view k t c)
  -- -nL
  pub lists :
      (chain : Text) (k : ipt.Kernel) (t c : Text)
      → view (chain_command ipt (codes "-nL") chain k).1 t c ≡ view k t c

-- ===== src/Agent/Filterspec.antt =====
-- internal/agent/filterspec.go: the iptables arguments of the ACL chains.
pub mod Chains
pub mod Verdicts
pub mod Admission
use home_kai.Base.{
  ℕ, zero, suc, Text, codes, text_eq, Bool, ◌||◌, List, [], ◌∷◌, ◌++◌, map, gather, take, drop,
  length, is_empty, if◌then◌else◌,
}
use home_kai.Text.{join_csv}
use home_kai.Model.{FilterRule, ForwardRule}

-- slices.Chunk(ports, n), with a round for each element at most
unfoldable pub chunks : ℕ → ℕ → List Text → List (List Text)
chunks zero n xs = []
chunks (suc fuel) n xs =
    let rest = chunks fuel n (drop n xs) in if is_empty xs then [] else take n xs ∷ rest

abbrev pub multiport : ℕ
multiport = 15

abbrev pub Spec : Type 0
Spec = List Text

abbrev pub multiport_args : Text → List Text → Spec
multiport_args protocol chunk =
    codes "-p" ∷ protocol ∷ codes "-m" ∷ codes "multiport" ∷ codes "--dports" ∷ join_csv chunk ∷ []

unfoldable pub proto_port_args : Text → List Text → List Spec
proto_port_args protocol ports =
    if is_empty protocol || text_eq protocol (codes "any")
    then [] ∷ []
    else if text_eq protocol (codes "icmp")
    then (codes "-p" ∷ codes "icmp" ∷ []) ∷ []
    else if text_eq protocol (codes "tcp") || text_eq protocol (codes "udp")
    then (if is_empty ports
        then (codes "-p" ∷ protocol ∷ []) ∷ []
        else map (multiport_args protocol) (chunks (length ports) multiport ports))
    else []

abbrev pub established : Spec
established =
    codes "-m"
    ∷ codes "conntrack"
    ∷ codes "--ctstate"
    ∷ codes "ESTABLISHED,RELATED"
    ∷ codes "-j"
    ∷ codes "ACCEPT"
    ∷ []

abbrev pub drop_all : Spec
drop_all = codes "-j" ∷ codes "DROP" ∷ []

abbrev pub accept : Spec → Spec
accept matcher = matcher ++ (codes "-j" ∷ codes "ACCEPT" ∷ [])

unfoldable pub filter_specs : FilterRule → List Spec
filter_specs rule =
    gather
      (λ src.
        map (λ pp. accept ((codes "-s" ∷ src ∷ []) ++ pp))
          (proto_port_args rule.protocol rule.ports))
      rule.src_cidrs

unfoldable pub filter_chain_specs : List FilterRule → List Spec
filter_chain_specs rules = established ∷ (gather filter_specs rules ++ drop_all ∷ [])

unfoldable pub forward_specs : ForwardRule → List Spec
forward_specs rule =
    gather
      (λ src.
        gather
          (λ dst.
            map (λ pp. accept ((codes "-s" ∷ src ∷ codes "-d" ∷ dst ∷ []) ++ pp))
              (proto_port_args rule.protocol rule.ports))
          rule.dst_cidrs)
      rule.src_cidrs

unfoldable pub forward_chain_specs : List ForwardRule → List Spec
forward_chain_specs rules = established ∷ (gather forward_specs rules ++ drop_all ∷ [])

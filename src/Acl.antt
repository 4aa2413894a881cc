-- ===== src/Acl.antt =====
-- internal/coordinator/acl.go: the compilation of policies into the rules that agents enforce.
pub mod Inbound
pub mod Forward
use home_kai.Base.{
  Text, codes, text_eq, sort_texts, elem, Bool, true, not, ◌&&◌, ◌||◌, List, [], ◌∷◌, ◌++◌, map,
  any, keep, gather, is_empty, if◌then◌else◌,
}
use home_kai.Model.{Node, StaticPeer, Policy, FilterRule, ForwardRule, role_hub}
use home_kai.Text.{comma, join_csv, split_on}

-- a common element
unfoldable pub intersects : List Text → List Text → Bool
intersects a b = any (λ y. elem y a) b

unfoldable pub match_tag : List Text → List Text → Bool
unfolding intersects
match_tag policy_tags device_tags =
    if is_empty policy_tags then true else intersects policy_tags device_tags

pub record AclDev : Type 0 where
  pub cidr : Text
  pub tags : List Text

abbrev pub slash32 : Text → Text
slash32 ip = ip ++ codes "/32"

unfoldable pub acl_sources : List Node → List StaticPeer → List AclDev
acl_sources nodes statics =
    map (λ (n : Node). record { cidr = slash32 n.overlay_ip; tags = n.tags }) nodes
    ++ map (λ (p : StaticPeer). record { cidr = slash32 p.overlay_ip; tags = p.tags }) statics

-- The loop body of `policySources`: is this device a source for the destination?
abbrev pub is_source : Policy → Text → AclDev → Bool
is_source pol dst_cidr s = not (text_eq s.cidr dst_cidr) && match_tag pol.src_tags s.tags

unfoldable pub policy_sources : Policy → List AclDev → Text → List Text
policy_sources pol sources dst_cidr =
    sort_texts (map (λ (s : AclDev). s.cidr) (keep (is_source pol dst_cidr) sources))

-- the loop body of `computeFilterRules` for one policy
unfoldable pub filter_rule : Node → List AclDev → Policy → List FilterRule
filter_rule dst sources pol =
    let src_cidrs = policy_sources pol sources (slash32 dst.overlay_ip) in
    if not (pol.enabled && match_tag pol.dst_tags dst.tags)
    then []
    else if is_empty src_cidrs
    then []
    else record { src_cidrs = src_cidrs; protocol = pol.protocol; ports = pol.ports } ∷ []

unfoldable pub compute_filter_rules :
    Node → List Node → List StaticPeer → List Policy → List FilterRule
compute_filter_rules dst nodes statics policies =
    gather (filter_rule dst (acl_sources nodes statics)) policies

-- A node, and the subnets that it advertises with its tags.
abbrev own_subnets : Node → List AclDev
own_subnets n = map (λ rt. record { cidr = rt; tags = n.tags }) n.routes_enabled

abbrev relayed_node : Node → Node → List AclDev
relayed_node self n =
    if text_eq n.id self.id
    then []
    else record { cidr = slash32 n.overlay_ip; tags = n.tags } ∷ own_subnets n

-- the destinations that `self` forwards to
unfoldable pub forward_dsts : Node → List Node → List StaticPeer → List AclDev
forward_dsts self nodes statics =
    (if text_eq self.role role_hub
      then gather (relayed_node self) nodes
        ++ map (λ (p : StaticPeer). record { cidr = slash32 p.overlay_ip; tags = p.tags }) statics
      else [])
    ++ own_subnets self

-- bySrc[key] = append(bySrc[key], cidr), with the keys in the order of `order`
unfoldable pub add_to_group : Text → Text → List (Text × List Text) → List (Text × List Text)
add_to_group key cidr [] = (key, cidr ∷ []) ∷ []
add_to_group key cidr ((k, ds) ∷ groups) =
    let rest = add_to_group key cidr groups in
    if text_eq key k then (k, ds ++ cidr ∷ []) ∷ groups else (k, ds) ∷ rest

-- the loop over `dsts` for one policy: its body, and the loop
unfoldable pub group_dst :
    Policy → List AclDev → List (Text × List Text) → AclDev → List (Text × List Text)
group_dst pol sources groups dst =
    let srcs = policy_sources pol sources dst.cidr in
    if not (match_tag pol.dst_tags dst.tags)
    then groups
    else if is_empty srcs
    then groups
    else add_to_group (join_csv srcs) dst.cidr groups

unfoldable pub group_dsts :
    Policy → List AclDev → List (Text × List Text) → List AclDev → List (Text × List Text)
group_dsts pol sources groups [] = groups
group_dsts pol sources groups (dst ∷ dsts) =
    group_dsts pol sources (group_dst pol sources groups dst) dsts

abbrev pub forward_rule : Policy → Text × List Text → ForwardRule
forward_rule pol (key, dst_cidrs) = record {
  src_cidrs = split_on comma key;
  dst_cidrs = sort_texts dst_cidrs;
  protocol = pol.protocol;
  ports = pol.ports;
}

unfoldable pub policy_forward_rules : List AclDev → List AclDev → Policy → List ForwardRule
policy_forward_rules sources dsts pol =
    if not pol.enabled then [] else map (forward_rule pol) (group_dsts pol sources [] dsts)

unfoldable pub compute_forward_rules :
    Node → List Node → List StaticPeer → List Policy → List ForwardRule
compute_forward_rules self nodes statics policies =
    gather (policy_forward_rules (acl_sources nodes statics) (forward_dsts self nodes statics))
      policies

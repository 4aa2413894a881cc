-- ===== src/Acl/Inbound.antt =====
-- `computeFilterRules` of internal/coordinator/acl.go against the policies.
use home_kai.Base.{
  Text, any-sort_texts, Bool, true, false, ◌&&◌, ◌≡◌, refl, ◌∙◌, List, [], ◌∷◌, map, any, keep,
  any-map, any-keep, any-gather, any_congr, is_empty, arith,
}
use home_kai.Model.{Node, StaticPeer, Policy, FilterRule}
use home_kai.Acl.{
  AclDev, match_tag, acl_sources, slash32, is_source, policy_sources, filter_rule,
  compute_filter_rules,
}

-- Does the policy let a device among the sources, with an address that passes `from`, reach
-- `dst_cidr`?
abbrev pub grants_from : Policy → List AclDev → Text → (Text → Bool) → Bool
grants_from pol sources dst_cidr from =
    any (λ (s : AclDev). is_source pol dst_cidr s && from s.cidr) sources

pub any-policy_sources :
    (pol : Policy) (sources : List AclDev) (dst_cidr : Text) (from : Text → Bool)
    → any from (policy_sources pol sources dst_cidr) ≡ grants_from pol sources dst_cidr from
unfolding policy_sources
any-policy_sources pol sources dst_cidr from =
    any-sort_texts from (map (λ (s : AclDev). s.cidr) (keep (is_source pol dst_cidr) sources))
    ∙ any-map from (λ (s : AclDev). s.cidr) (keep (is_source pol dst_cidr) sources)
    ∙ any-keep (λ (s : AclDev). from s.cidr) (is_source pol dst_cidr) sources

pub any_of_empty {ℓ} :
    {A : Type ℓ} (p : A → Bool) (xs : List A) → is_empty xs ≡ true → any p xs ≡ false
any_of_empty p [] h = refl
any_of_empty p (y ∷ ys) h = ground arith

module _ (q : Text → List Text → Bool) (from : Text → Bool) where
  -- Does a rule admit such a source, for a protocol and ports that pass the test `q`?
  abbrev pub admits : FilterRule → Bool
  admits r = any from r.src_cidrs && q r.protocol r.ports

  -- Does an enabled policy grant it?
  abbrev pub grants : List AclDev → Node → Policy → Bool
  grants sources dst pol =
      pol.enabled
      && match_tag pol.dst_tags dst.tags
      && grants_from pol sources (slash32 dst.overlay_ip) from
      && q pol.protocol pol.ports

  any-filter_rule :
      (dst : Node) (sources : List AclDev) (pol : Policy)
      → any admits (filter_rule dst sources pol) ≡ grants sources dst pol
  unfolding filter_rule
  any-filter_rule dst sources pol = ground (
    arith,
    any-policy_sources pol sources (slash32 dst.overlay_ip) from,
    any_of_empty from (policy_sources pol sources (slash32 dst.overlay_ip)),
  )

  -- For every test of source addresses and every test of protocol and ports, an inbound rule of the
  -- node admits such a source exactly when an enabled policy whose destination tags match the node
  -- has a source device with such an address, other than the address of the node, whose tags match.
  pub compute_filter_rules_exact :
      (dst : Node) (nodes : List Node) (statics : List StaticPeer) (policies : List Policy)
      → any admits (compute_filter_rules dst nodes statics policies)
        ≡ any (grants (acl_sources nodes statics) dst) policies
  unfolding compute_filter_rules
  compute_filter_rules_exact dst nodes statics policies =
      any-gather admits (filter_rule dst (acl_sources nodes statics)) policies
      ∙ any_congr (any-filter_rule dst (acl_sources nodes statics)) policies

-- ===== src/Acl/Forward.antt =====
-- `computeForwardRules` of internal/coordinator/acl.go against the policies.
use home_kai.Base.{
  Text, text_eq_iff, all-sort_texts, any-sort_texts, Bool, true, false, ◌&&◌, ◌||◌, ◌≡◌, ◌∙◌, List,
  [], ◌∷◌, map, any, all, keep, any-map, any-append, any-gather, any-and, any_congr, ||_assoc,
  all-map-keep, is_empty, arith,
}
use home_kai.Model.{Node, StaticPeer, Policy, ForwardRule}
use home_kai.Text.{comma, join_csv, split_on}
use home_kai.Text.Csv.{is_entry, split_on-join_csv}
use home_kai.Acl.{
  AclDev, match_tag, acl_sources, is_source, policy_sources, forward_dsts, add_to_group, group_dst,
  group_dsts, forward_rule, policy_forward_rules, compute_forward_rules,
}
use home_kai.Acl.Inbound.{grants_from, any-policy_sources, any_of_empty}

-- Every address is a comma-free text, as `ParseAddr` and `ParsePrefix` leave them.
abbrev pub AreEntries : List AclDev → Type 0
AreEntries sources = all (λ (s : AclDev). is_entry s.cidr) sources ≡ true

all-policy_sources :
    (pol : Policy) (sources : List AclDev) (dst_cidr : Text)
    → AreEntries sources
    → all is_entry (policy_sources pol sources dst_cidr) ≡ true
unfolding policy_sources
all-policy_sources pol sources dst_cidr h =
    all-sort_texts is_entry (map (λ (s : AclDev). s.cidr) (keep (is_source pol dst_cidr) sources))
    ∙ all-map-keep is_entry (λ (s : AclDev). s.cidr) (is_source pol dst_cidr) sources h

-- The key of a group gives the sources back.
split_on-join_csv_nonempty :
    (xs : List Text)
    → all is_entry xs ≡ true
    → is_empty xs ≡ false
    → split_on comma (join_csv xs) ≡ xs
split_on-join_csv_nonempty [] h k = ground arith
split_on-join_csv_nonempty (x ∷ xs) h k = split_on-join_csv x xs h

module _ (from to : Text → Bool) where
  in_group : Text × List Text → Bool
  in_group (key, ds) = any from (split_on comma key) && any to ds

  any-add_to_group :
      (key cidr : Text) (groups : List (Text × List Text))
      → any in_group (add_to_group key cidr groups)
        ≡ (any in_group groups || (any from (split_on comma key) && to cidr))
  unfolding add_to_group in_group
  any-add_to_group key cidr [] = ground arith
  any-add_to_group key cidr ((k, ds) ∷ groups) =
      ground
        (arith, text_eq_iff key k, any-append to ds (cidr ∷ []), any-add_to_group key cidr groups)

  -- Does the policy let a source that passes `from` reach this destination, which passes `to`?
  abbrev pub grants_to : List AclDev → Policy → AclDev → Bool
  grants_to sources pol dev =
      to dev.cidr && match_tag pol.dst_tags dev.tags && grants_from pol sources dev.cidr from

  any-group_dst :
      (pol : Policy) (sources : List AclDev) (groups : List (Text × List Text)) (dev : AclDev)
      → AreEntries sources
      → any in_group (group_dst pol sources groups dev)
        ≡ (any in_group groups || grants_to sources pol dev)
  unfolding group_dst
  any-group_dst pol sources groups dev h =
      let srcs = policy_sources pol sources dev.cidr in
      ground (
        arith,
        any-policy_sources pol sources dev.cidr from,
        any_of_empty from srcs,
        split_on-join_csv_nonempty srcs (all-policy_sources pol sources dev.cidr h),
        any-add_to_group (join_csv srcs) dev.cidr groups,
      )

  any-group_dsts :
      (pol : Policy) (sources : List AclDev) (groups : List (Text × List Text)) (dsts : List AclDev)
      → AreEntries sources
      → any in_group (group_dsts pol sources groups dsts)
        ≡ (any in_group groups || any (grants_to sources pol) dsts)
  unfolding group_dsts
  any-group_dsts pol sources groups [] h = ground arith
  any-group_dsts pol sources groups (dev ∷ dsts) h =
      rw
        (
          any-group_dsts pol sources (group_dst pol sources groups dev) dsts h,
          any-group_dst pol sources groups dev h,
        )
        (||_assoc (any in_group groups) (grants_to sources pol dev)
          (any (grants_to sources pol) dsts))

  module _ (q : Text → List Text → Bool) where
    -- Does a rule admit the pair, for a protocol and ports that pass the test `q`?
    abbrev pub admits : ForwardRule → Bool
    admits r = any from r.src_cidrs && any to r.dst_cidrs && q r.protocol r.ports

    abbrev pub grants : List AclDev → List AclDev → Policy → Bool
    grants sources dsts pol =
        pol.enabled && any (grants_to sources pol) dsts && q pol.protocol pol.ports

    admits-forward_rule :
        (pol : Policy) (g : Text × List Text)
        → admits (forward_rule pol g) ≡ (q pol.protocol pol.ports && in_group g)
    unfolding in_group
    admits-forward_rule pol (key, ds) = ground (arith, any-sort_texts to ds)

    any-policy_forward_rules :
        (sources dsts : List AclDev)
        → AreEntries sources
        → (pol : Policy)
        → any admits (policy_forward_rules sources dsts pol) ≡ grants sources dsts pol
    unfolding policy_forward_rules
    any-policy_forward_rules sources dsts h pol =
        let groups = group_dsts pol sources [] dsts in
        ground (
          arith,
          any-map admits (forward_rule pol) groups,
          any_congr (admits-forward_rule pol) groups,
          any-and (q pol.protocol pol.ports) in_group groups,
          any-group_dsts pol sources [] dsts h,
        )

    -- With comma-free addresses, a forward rule of the node admits a source and a destination that
    -- pass the tests of addresses, for a test of protocol and ports, exactly when an enabled policy
    -- passes the last test, matches the tags of a device among those that the node forwards to,
    -- with an address that passes, and has a source device whose address passes and is another one,
    -- and whose tags match.
    pub compute_forward_rules_exact :
        (self : Node) (nodes : List Node) (statics : List StaticPeer) (policies : List Policy)
        → AreEntries (acl_sources nodes statics)
        → any admits (compute_forward_rules self nodes statics policies)
          ≡ any (grants (acl_sources nodes statics) (forward_dsts self nodes statics)) policies
    unfolding compute_forward_rules
    compute_forward_rules_exact self nodes statics policies h =
        let sources = acl_sources nodes statics in
        let dsts = forward_dsts self nodes statics in
        any-gather admits (policy_forward_rules sources dsts) policies
        ∙ any_congr (any-policy_forward_rules sources dsts h) policies

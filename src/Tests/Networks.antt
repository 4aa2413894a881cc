-- ===== src/Tests/Networks.antt =====
-- The netmap, the access control and the peers of an agent for a small network.
use home_kai.Base.{
  is_nodup, Text, codes, text_eq, Bool, true, ◌&&◌, ◌||◌, Option, ◌≡◌, refl, List, [], ◌∷◌, any,
  all, keep,
}
use home_kai.Model.{Node, StaticPeer, Netmap}
use home_kai.Hosts.{build_hosts}
use home_kai.Hosts.Labels.{host_names, build_hosts-is_nodup}
use home_kai.Acl.{acl_sources}
use home_kai.Acl.Inbound
use home_kai.Netmap.{is_other, any_enabled, netmap_for, build_netmap}
use home_kai.Netmap.Peers.{peers_of, has_key, result, hub_netmap_keys}
use home_kai.Netmap.Filter.{
  filter_on, filter_admits, is_covered, netmap_filter_exact, netmap_candidates_covered,
}
use home_kai.Tests.Data.{
  no_ip6, overlay, hub, laptop, server, network, phone, dev_to_srv, seen_endpoint,
}

abbrev phone_ip : Text
phone_ip = codes "100.64.0.4/32"

abbrev server_ip : Text
server_ip = codes "100.64.0.3/32"

-- The netmap of a node of the network, with the policy.
abbrev netmap : Node → Option Netmap
netmap node =
    result no_ip6 overlay (codes "hub:51820") 1420 1 node network (phone ∷ []) (seen_endpoint ∷ [])
      [] [] (dev_to_srv ∷ []) 1

netmap_filter_exact_example :
    (filter_on (netmap server) ≡ any_enabled (dev_to_srv ∷ []))
    × ((q : Text → List Text → Bool) (src : Text)
        → filter_admits q src (netmap server)
          ≡ any
              (Inbound.grants q
                (text_eq src)
                (acl_sources (keep (λ (n : Node). n.approved) network) (phone ∷ []))
                server)
              (dev_to_srv ∷ []))
unfolding netmap_for build_netmap text_eq
netmap_filter_exact_example =
    netmap_filter_exact no_ip6 overlay (codes "hub:51820") 1420 1 server network (phone ∷ [])
      (seen_endpoint ∷ []) [] [] (dev_to_srv ∷ []) 1 refl

netmap_candidates_covered_example :
    all
      (is_covered no_ip6 overlay
        (codes "hub:51820")
        1420
        1
        laptop
        network
        (phone ∷ [])
        (seen_endpoint ∷ [])
        []
        []
        (dev_to_srv ∷ [])
        1)
      (peers_of (netmap laptop))
    ≡ true
netmap_candidates_covered_example =
    netmap_candidates_covered no_ip6 overlay (codes "hub:51820") 1420 1 laptop network (phone ∷ [])
      (seen_endpoint ∷ []) [] [] (dev_to_srv ∷ []) 1 refl

hub_netmap_keys_example : any (has_key (codes "KP")) (peers_of (netmap hub)) ≡ (
    any (λ n. n.approved && (is_other hub n && text_eq (codes "KP") n.wg_pub_key)) network
    || any (λ (p : StaticPeer). text_eq (codes "KP") p.wg_pub_key) (phone ∷ []))
unfolding text_eq
hub_netmap_keys_example =
    hub_netmap_keys no_ip6 overlay (codes "hub:51820") 1420 1 hub network (phone ∷ [])
      (seen_endpoint ∷ []) [] [] (dev_to_srv ∷ []) 1 refl (codes "KP")

-- Two laptops of the same name.
build_hosts-is_nodup_example :
    is_nodup (host_names (build_hosts (hub ∷ laptop ∷ laptop ∷ []) (phone ∷ []))) ≡ true
build_hosts-is_nodup_example = build_hosts-is_nodup (hub ∷ laptop ∷ laptop ∷ []) (phone ∷ [])

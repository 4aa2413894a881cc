-- ===== src/Server/Names/Backfill/Named.antt =====
-- `BackfillDNS` (internal/coordinator/server.go) on the tables of the store.
use home_kai.Base.{
  Text, Bool, true, false, not, ◌&&◌, ◌≡◌, refl, List, [], ◌∷◌, any, all, update_where, arith,
  is_empty, Bool-cases, inl, inr,
}
use home_kai.Model.{Node, StaticPeer}
use home_kai.Store.Exec.{World, Db, pure, catch, sql, attempt, ◌>>=◌}
use home_kai.Store.Keeps.{Keeps-sql}
use home_kai.Store.Rows.{has_id, static_has_id, update_node, update_static}
use home_kai.Store.Calls.{
  nodes, static_peers, set_node_dns_name, set_static_peer_dns_name, bump_netmap_version,
}
use home_kai.Server.{bump_netmap, internal, notify_netmap_changed}
use home_kai.Server.Names.{Provider, bump_changed, backfill_table, backfill_dns}
use home_kai.Server.Names.Backfill.{
  IsWorking, IsStore, covered, covered-done, backfill_table-Returns,
}

update_none :
    {A : Type 0} (p : A → Bool) (f : A → A) (xs : List A)
    → any p xs ≡ false
    → update_where p f xs ≡ xs
update_none p f [] h = refl
update_none p f (x ∷ xs) h = ground (arith, h, update_none p f xs)

abbrev node_named : Node → Bool
node_named n = not (is_empty n.dns_name)

abbrev static_named : StaticPeer → Bool
static_named p = not (is_empty p.dns_name)

-- Every device has a name.
abbrev pub all_named : Db → Bool
all_named db = all node_named db.nodes && all static_named db.statics

abbrev named_nodes : Db → Bool
named_nodes db = all node_named db.nodes

node-IsStore :
    IsStore
      (λ (n : Node). n.id)
      (λ n. n.dns_name)
      (λ db. db.nodes)
      (λ db. true)
      (λ n fqdn. set_node_dns_name n.id fqdn)
unfolding set_node_dns_name sql attempt update_node
node-IsStore = record {
  rename = λ t n. record n { dns_name = t };
  named = λ t n. refl;
  stores = λ n t w calm. elim (Bool-cases (any (has_id n.id) w.db.nodes)) [
    | inl e ↦ rw (calm, e) (refl, refl)
    | inr e ↦
        rw (calm, e, update_none (has_id n.id) (λ m. record m { dns_name = t }) w.db.nodes e)
          (refl, refl)
  ];
  keeps_rest = λ n t w h. refl;
}

static-IsStore :
    IsStore
      (λ (p : StaticPeer). p.id)
      (λ p. p.dns_name)
      (λ db. db.statics)
      named_nodes
      (λ p fqdn. set_static_peer_dns_name p.id fqdn)
unfolding set_static_peer_dns_name sql attempt update_static
static-IsStore = record {
  rename = λ t p. record p { dns_name = t };
  named = λ t p. refl;
  stores = λ p t w calm. elim (Bool-cases (any (static_has_id p.id) w.db.statics)) [
    | inl e ↦ rw (calm, e) (refl, refl)
    | inr e ↦
        rw
          (
            calm,
            e,
            update_none (static_has_id p.id) (λ q. record q { dns_name = t }) w.db.statics e,
          )
          (refl, refl)
  ];
  keeps_rest = λ p t.
      (Keeps-sql (update_static p.id (λ q. record q { dns_name = t }))
        (λ db h. ground (arith, h))).at;
}

module _ {S : Type 0} where
  bump_changed-all_named :
      (changed : Bool) (s : S) (w : World)
      → w.faults ≡ []
      → all_named w.db ≡ true
      → all_named (bump_changed changed s w).1.db ≡ true
  unfolding bump_changed pure catch ◌>>=◌ bump_netmap internal bump_netmap_version sql attempt
      notify_netmap_changed
  bump_changed-all_named false s w calm h = h
  bump_changed-all_named true s w calm h = rw (calm, bump_netmap) h

both_named :
    (db : Db)
    → named_nodes db ≡ true
    → all (covered (λ (p : StaticPeer). p.id) (λ p. p.dns_name) []) db.statics ≡ true
    → all_named db ≡ true
both_named db h c =
    ground (arith, h, covered-done (λ (p : StaticPeer). p.id) (λ p. p.dns_name) db.statics c)

module _ {S : Type 0} (provider : Provider S) where
  -- While no call of the database fails, nor one of the provider or for a random number,
  -- BackfillDNS with a domain leaves every node and every static peer with a name.
  pub backfill_dns-all_named :
      (domain : Text) (s : S) (w : World)
      → IsWorking provider
      → is_empty domain ≡ false
      → w.faults ≡ []
      → all_named (backfill_dns provider domain s w).1.db ≡ true
  unfolding backfill_dns pure ◌>>=◌ nodes static_peers
  backfill_dns-all_named domain s w works nonempty calm =
      let (b, (e, (calm_b, cov_b, _))) =
        backfill_table-Returns provider works domain nonempty (λ (n : Node). n.id) (λ n. n.dns_name)
          (λ n. n.overlay_ip) (λ db. db.nodes) (λ db. true) (λ n fqdn. set_node_dns_name n.id fqdn)
          node-IsStore (λ n. n.created_at) (s, false) w calm refl in
      let v =
        (backfill_table provider domain (λ (n : Node). n.dns_name) (λ n. n.overlay_ip)
          (λ n fqdn. set_node_dns_name n.id fqdn) nodes (s, false) w).1 in
      let (c, (d, (calm_c, cov_c, held))) =
        backfill_table-Returns provider works domain nonempty (λ (p : StaticPeer). p.id)
          (λ p. p.dns_name) (λ p. p.overlay_ip) (λ db. db.statics) named_nodes
          (λ p fqdn. set_static_peer_dns_name p.id fqdn) static-IsStore (λ p. p.created_at) b v
          calm_b (covered-done (λ (n : Node). n.id) (λ n. n.dns_name) v.db.nodes cov_b) in
      let u =
        (backfill_table provider domain (λ (p : StaticPeer). p.dns_name) (λ p. p.overlay_ip)
          (λ p fqdn. set_static_peer_dns_name p.id fqdn) static_peers b v).1 in
      rw (backfill_dns, nonempty, e, d)
        (bump_changed-all_named c.1 c.0 u calm_c (both_named u.db held cov_c))

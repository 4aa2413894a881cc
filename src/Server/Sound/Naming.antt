-- ===== src/Server/Sound/Naming.antt =====
-- Well-formed databases and `BackfillDNS` of internal/coordinator/server.go.
use home_kai.Base.{Text, Bool, List, [], ◌∷◌, refl}
use home_kai.Store.Exec.{Db, StoreErr, Exec}
use home_kai.Store.Keeps.{Keeps, Keeps-sql, Keeps-bind}
use home_kai.Store.Calls.{set_node_dns_name, set_static_peer_dns_name}
use home_kai.Server.Names.{
  Provider, backfill_one, backfill_each, backfill_table, bump_changed, backfill_dns,
}
use home_kai.Server.Sound.{Watch, holds}
use home_kai.Server.Sound.Statements.{update_node-Sound, update_static-Sound}
use home_kai.Server.Sound.Writes.{writing_rules}

module _ {S A : Type 0} {p : Db → Bool} (provider : Provider S) (domain : Text) (name ip : A → Text)
    (set_name : A → Text → Exec StoreErr (Unit {0}))
    (k : (a : A) (t : Text) → Keeps p (set_name a t)) where
  backfill_one-Keeps :
      (a : A) (state : S × Bool) → Keeps p (backfill_one provider domain name ip set_name a state)
  unfolding backfill_one
  backfill_one-Keeps a (s, changed) = search (writing_rules, k) depth 20

  backfill_each-Keeps :
      (todo : List A) (state : S × Bool)
      → Keeps p (backfill_each provider domain name ip set_name todo state)
  unfolding backfill_each
  backfill_each-Keeps [] state = search writing_rules
  backfill_each-Keeps (a ∷ todo) state =
      search (writing_rules, backfill_one-Keeps a state, backfill_each-Keeps todo)

  backfill_table-Keeps :
      (read : Exec StoreErr (List A)) (state : S × Bool)
      → Keeps p read
      → Keeps p (backfill_table provider domain name ip set_name read state)
  unfolding backfill_table
  backfill_table-Keeps read state h =
      Keeps-bind _ _ (search (writing_rules, h)) (λ todo. backfill_each-Keeps todo state)

module _ (watch : Watch) where
  set_node_dns_name-Keeps : (id name : Text) → Keeps (holds watch) (set_node_dns_name id name)
  unfolding set_node_dns_name
  set_node_dns_name-Keeps id name = Keeps-sql _ (
      update_node-Sound watch id (λ n. record n { dns_name = name })
        (λ n. (refl, refl, refl, refl)))

  set_static_peer_dns_name-Keeps :
      (id name : Text) → Keeps (holds watch) (set_static_peer_dns_name id name)
  unfolding set_static_peer_dns_name
  set_static_peer_dns_name-Keeps id name = Keeps-sql _ (
      update_static-Sound watch id (λ p. record p { dns_name = name })
        (λ p. (refl, refl, refl, refl)))

  bump_changed-Keeps :
      {S : Type 0} (changed : Bool) (s : S) → Keeps (holds watch) (bump_changed changed s)
  unfolding bump_changed
  bump_changed-Keeps changed s = search writing_rules depth 20

  pub backfill_dns-Keeps :
      {S : Type 0} (provider : Provider S) (domain : Text) (s : S)
      → Keeps (holds watch) (backfill_dns provider domain s)
  unfolding backfill_dns
  backfill_dns-Keeps provider domain s =
      search
        (
          writing_rules, bump_changed-Keeps, set_node_dns_name-Keeps,
          set_static_peer_dns_name-Keeps, backfill_table-Keeps,
        )
        depth 30

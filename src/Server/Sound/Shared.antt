-- ===== src/Server/Sound/Shared.antt =====
-- Well-formed databases and what the handlers of internal/coordinator share: calls of the store and
-- actions.
use home_kai.Base.{Text, text_eq, Bool, true, Option, none, some, ◌≡◌, find}
use home_kai.Model.{Node}
use home_kai.Store.Exec.{Db, pure, sql}
use home_kai.Store.Keeps.{Keeps, Keeps-sql}
use home_kai.Store.Rows.{static_has_id, has_id}
use home_kai.Store.Calls.{
  or_not_found, nodes, static_peers, policies, publishes, all_endpoints, node_by_id,
  node_by_auth_hash, static_peer_by_id, allocated_ips, get_lock_pubkey, get_lock_active,
}
use home_kai.Server.{
  Env, Config, node_or_404, static_peer_or_404, notify_netmap_changed, allocate, allocation_or_fail,
}
use home_kai.Ipam.{Allocation, got, exhausted, unsupported, out_of_fuel}
use home_kai.Server.Sound.Actions.{action_rules}

module _ {p : Db → Bool} where
  find-Keeps : {A : Type 0} (look : Db → Option A) → Keeps p (sql (λ db. or_not_found (look db) db))
  find-Keeps look = Keeps-sql (λ db. or_not_found (look db) db) (λ db h. go (look db) db h)
    where
      go : {A : Type 0} (o : Option A) (db : Db) → p db ≡ true → p (or_not_found o db).1 ≡ true
      go none db h = h
      go (some a) db h = h

  pub node_by_id-Keeps : (id : Text) → Keeps p (node_by_id id)
  unfolding node_by_id
  node_by_id-Keeps id = find-Keeps (λ db. find (has_id id) db.nodes)

  pub node_by_auth_hash-Keeps : (hash : Text) → Keeps p (node_by_auth_hash hash)
  unfolding node_by_auth_hash
  node_by_auth_hash-Keeps hash =
      find-Keeps (λ db. find (λ (n : Node). text_eq hash n.auth_secret_hash) db.nodes)

  pub static_peer_by_id-Keeps : (id : Text) → Keeps p (static_peer_by_id id)
  unfolding static_peer_by_id
  static_peer_by_id-Keeps id = find-Keeps (λ db. find (static_has_id id) db.statics)

  pub nodes-Keeps : Keeps p nodes
  unfolding nodes
  nodes-Keeps = search action_rules

  pub static_peers-Keeps : Keeps p static_peers
  unfolding static_peers
  static_peers-Keeps = search action_rules

  pub policies-Keeps : Keeps p policies
  unfolding policies
  policies-Keeps = search action_rules

  pub publishes-Keeps : Keeps p publishes
  unfolding publishes
  publishes-Keeps = search action_rules

  pub all_endpoints-Keeps : Keeps p all_endpoints
  unfolding all_endpoints
  all_endpoints-Keeps = search action_rules

  pub get_lock_pubkey-Keeps : Keeps p get_lock_pubkey
  unfolding get_lock_pubkey
  get_lock_pubkey-Keeps = search action_rules

  pub get_lock_active-Keeps : Keeps p get_lock_active
  unfolding get_lock_active
  get_lock_active-Keeps = search action_rules

  pub allocated_ips-Keeps : Keeps p allocated_ips
  unfolding allocated_ips
  allocated_ips-Keeps = search action_rules

  pub node_or_404-Keeps : (id : Text) → Keeps p (node_or_404 id)
  unfolding node_or_404
  node_or_404-Keeps id = search (action_rules, node_by_id-Keeps)

  pub static_peer_or_404-Keeps : (id : Text) → Keeps p (static_peer_or_404 id)
  unfolding static_peer_or_404
  static_peer_or_404-Keeps id = search (action_rules, static_peer_by_id-Keeps)

  pub notify-Keeps : Keeps p notify_netmap_changed
  unfolding notify_netmap_changed pure
  notify-Keeps = record { at = λ w h. h }

  allocation-Keeps : (a : Allocation) → Keeps p (allocation_or_fail a)
  allocation-Keeps (got a) = search action_rules
  allocation-Keeps exhausted = search action_rules
  allocation-Keeps unsupported = search action_rules
  allocation-Keeps out_of_fuel = search action_rules

  pub allocate-Keeps : (env : Env) (cfg : Config) → Keeps p (allocate env cfg)
  unfolding allocate
  allocate-Keeps env cfg = search (action_rules, allocated_ips-Keeps, allocation-Keeps)

pub ruleset reading_rules = (
  action_rules, node_by_id-Keeps, node_by_auth_hash-Keeps, static_peer_by_id-Keeps, nodes-Keeps,
  static_peers-Keeps, policies-Keeps, publishes-Keeps, all_endpoints-Keeps, get_lock_pubkey-Keeps,
  get_lock_active-Keeps, node_or_404-Keeps, static_peer_or_404-Keeps, notify-Keeps, allocate-Keeps,
)

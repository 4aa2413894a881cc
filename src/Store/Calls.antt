-- ===== src/Store/Calls.antt =====
-- The methods of the store.
use home_kai.Base.{
  ℕ, ◌+◌, Text, text_eq, elem, Bool, false, not, ◌&&◌, ◌||◌, Option, none, some, List, [], ◌∷◌,
  ◌++◌, map, any, keep, find, length, ◌==◌, is_empty, if◌then◌else◌,
}
use home_kai.Text.{join_csv}
use home_kai.Model.{Node, StaticPeer, Endpoint, Policy, Publish, Event}
use home_kai.Store.Exec.{
  EnrollToken, Db, StoreErr, not_found, unique, io, Result, ok, err, Statement, Exec, sql, pure,
  catch, ◌>>=◌, ◌>>◌,
}
use home_kai.Store.Rows.{
  column, order_by, has_id, static_has_id, update_node, update_static, append_event, trim_events,
}

-- A statement that only reads.
abbrev pub reading : {A : Type 0} → (Db → A) → Statement A
reading f db = (ok (f db), db)

unfoldable pub nodes : Exec StoreErr (List Node)
nodes = sql (reading (λ db. order_by (λ (n : Node). n.created_at) db.nodes))

unfoldable pub static_peers : Exec StoreErr (List StaticPeer)
static_peers = sql (reading (λ db. order_by (λ (p : StaticPeer). p.created_at) db.statics))

unfoldable pub policies : Exec StoreErr (List Policy)
policies = sql (reading (λ db. order_by (λ (p : Policy). p.created_at) db.policies))

unfoldable pub publishes : Exec StoreErr (List Publish)
publishes = sql (reading (λ db. order_by (λ (p : Publish). p.listen_port) db.publishes))

unfoldable pub all_endpoints : Exec StoreErr (List Endpoint)
all_endpoints = sql (reading (λ db. db.endpoints))

abbrev pub or_not_found : {A : Type 0} → Option A → Db → Result StoreErr A × Db
or_not_found none db = (err not_found, db)
or_not_found (some a) db = (ok a, db)

unfoldable pub node_by_id : Text → Exec StoreErr Node
node_by_id id = sql (λ db. or_not_found (find (has_id id) db.nodes) db)

unfoldable pub node_by_auth_hash : Text → Exec StoreErr Node
node_by_auth_hash hash =
    sql (λ db. or_not_found (find (λ (n : Node). text_eq hash n.auth_secret_hash) db.nodes) db)

unfoldable pub static_peer_by_id : Text → Exec StoreErr StaticPeer
static_peer_by_id id = sql (λ db. or_not_found (find (static_has_id id) db.statics) db)

unfoldable pub set_node_dns_name : Text → Text → Exec StoreErr (Unit {0})
set_node_dns_name id name = sql (update_node id (λ n. record n { dns_name = name }))

unfoldable pub set_static_peer_dns_name : Text → Text → Exec StoreErr (Unit {0})
set_static_peer_dns_name id name = sql (update_static id (λ p. record p { dns_name = name }))

-- TouchNode: no row is no error
unfoldable pub touch_node : Text → ℕ → Exec StoreErr (Unit {0})
touch_node id now =
    sql (λ db. let (r, db') = update_node id (λ n. record n { last_seen = now }) db in (ok tt, db'))

unfoldable pub set_node_approved : Text → Bool → Exec StoreErr (Unit {0})
set_node_approved id approved = sql (update_node id (λ n. record n { approved = approved }))

unfoldable pub set_node_tags : Text → List Text → Exec StoreErr (Unit {0})
set_node_tags id tags = sql (update_node id (λ n. record n { tags = column tags }))

unfoldable pub set_enabled_routes : Text → List Text → Exec StoreErr (Unit {0})
set_enabled_routes id routes =
    sql (update_node id (λ n. record n { routes_enabled = column routes }))

unfoldable pub set_node_lock_sig : Text → Text → Exec StoreErr (Unit {0})
set_node_lock_sig id sig = sql (update_node id (λ n. record n { lock_sig = sig }))

abbrev pub retained : List Text → Node → List Text
retained routes n = keep (λ r. elem r routes) n.routes_enabled

-- The columns after `SetAdvertisedRoutes`.
abbrev pub advertise : List Text → List Text → Node → Node
advertise routes enabled n = record n {
  routes_advertised = column routes;
  routes_enabled = column enabled;
}

-- SetAdvertisedRoutes: `advChanged` and `enabledChanged`. The UPDATE of no row is no error.
unfoldable pub set_advertised_routes : Text → List Text → Exec StoreErr (Bool × Bool)
set_advertised_routes id routes = do
  n ← node_by_id id
  let enabled = retained routes n
  let enabled_changed = not (text_eq (join_csv enabled) (join_csv n.routes_enabled))
  let adv_changed =
      not (text_eq (join_csv routes) (join_csv n.routes_advertised)) || enabled_changed
  if not adv_changed then pure (false, false) else do
    sql (λ db. let (r, db') = update_node id (advertise routes enabled) db in (ok tt, db'))
    pure (adv_changed, enabled_changed)

unfoldable pub create_enroll_token : Text → Text → ℕ → Exec StoreErr (Unit {0})
create_enroll_token token_hash name_hint expires_at = sql (λ db.
    if any (λ (t : EnrollToken). text_eq token_hash t.token_hash) db.tokens
    then (err unique, db)
    else (
      ok tt,
      record db {
        tokens =
            db.tokens
            ++ record {
              token_hash = token_hash;
              name_hint = name_hint;
              expires_at = expires_at;
              used_at = none;
            }
              ∷ [];
      },
    ))

-- AllocatedIPs: the addresses of the nodes, then those of the static peers
unfoldable pub allocated_ips : Exec StoreErr (List Text)
allocated_ips = do
  of_nodes ← sql (reading (λ db. map (λ (n : Node). n.overlay_ip) db.nodes))
  of_statics ← sql (reading (λ db. map (λ (p : StaticPeer). p.overlay_ip) db.statics))
  pure (of_nodes ++ of_statics)

-- SELECT after UPDATE, two calls
unfoldable pub bump_netmap_version : Exec StoreErr ℕ
bump_netmap_version = do
  sql (λ db. (ok tt, record db { netmap_version = db.netmap_version + 1 }))
  sql (reading (λ db. db.netmap_version))

abbrev text_or_empty : Option Text → Text
text_or_empty none = []
text_or_empty (some t) = t

unfoldable pub get_lock_pubkey : Exec StoreErr Text
get_lock_pubkey = sql (reading (λ db. text_or_empty db.lock_pubkey))

unfoldable pub get_lock_active : Exec StoreErr Text
get_lock_active = sql (reading (λ db. text_or_empty db.lock_active))

unfoldable pub set_lock_pubkey : Option Text → Exec StoreErr (Unit {0})
set_lock_pubkey value = sql (λ db. (ok tt, record db { lock_pubkey = value }))

unfoldable pub set_lock_active : Option Text → Exec StoreErr (Unit {0})
set_lock_active value = sql (λ db. (ok tt, record db { lock_active = value }))

-- ClearLockSigs, two statements
unfoldable pub clear_lock_sigs : Exec StoreErr (Unit {0})
clear_lock_sigs = do
  sql (λ db. (ok tt, record db { nodes = map (λ (n : Node). record n { lock_sig = [] }) db.nodes }))
  sql (λ db. (
    ok tt,
    record db { statics = map (λ (p : StaticPeer). record p { lock_sig = [] }) db.statics },
  ))

abbrev pub of_kind : Text → Text → Endpoint → Bool
of_kind id kind e = text_eq id e.node_id && text_eq kind e.kind

abbrev pub has_twice : List Text → Bool
has_twice [] = false
has_twice (x ∷ xs) = elem x xs || has_twice xs

-- ReplaceEndpoints, a transaction: the addresses are part of the primary key, and the node must
-- exist if there is one
unfoldable pub replace_endpoints : Text → Text → List Text → ℕ → Exec StoreErr Bool
replace_endpoints id kind addrs now = sql (λ db.
    let old = map (λ (e : Endpoint). e.addr) (keep (of_kind id kind) db.endpoints) in
    let changed = not (length old == length addrs) || any (λ a. not (elem a old)) addrs in
    if has_twice addrs
    then (err unique, db)
    else if not (is_empty addrs) && not (any (has_id id) db.nodes)
    then (err io, db)
    else (
      ok changed,
      record db {
        endpoints =
            keep (λ e. not (of_kind id kind e)) db.endpoints
            ++ map (λ a. record { node_id = id; kind = kind; addr = a; updated_at = now }) addrs;
      },
    ))

-- AddEvent: the error of the trimming is ignored
unfoldable pub add_event : Text → Text → Text → ℕ → Exec StoreErr Event
add_event kind actor message now = do
  e ← sql (append_event kind actor message now)
  catch {F = StoreErr} (sql (trim_events e.id)) (λ _. pure tt)
  pure e

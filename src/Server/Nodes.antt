-- ===== src/Server/Nodes.antt =====
-- internal/coordinator/node.go: the status, key and netmap calls of a node, and what the
-- administrator does to a node. A handler ends with the status 204 where it returns `tt`.
use home_kai.Base.{
  ℕ, Text, codes, text_eq, elem, Bool, true, false, not, ◌&&◌, ◌||◌, Option, none, some, List, [],
  ◌∷◌, ◌++◌, any, all, ltb, is_empty, if◌then◌else◌,
}
use home_kai.Base.Int.{ℤ}
use home_kai.Text.{join_csv}
use home_kai.Model.{Node, Netmap}
use home_kai.Normalize.{normalize_tags, normalize_routes, sanitize_endpoints}
use home_kai.Netmap.{is_hub, netmap_for}
use home_kai.Store.Exec.{StoreErr, unique, pure, throw, catch, sql, ◌>>=◌, ◌>>◌}
use home_kai.Store.Rows.{set_node_key, delete_node}
use home_kai.Store.Calls.{
  reading, nodes, static_peers, policies, publishes, all_endpoints, node_by_id, set_node_approved,
  set_node_tags, set_enabled_routes, set_advertised_routes, replace_endpoints, get_lock_pubkey,
  get_lock_active,
}
use home_kai.Server.{
  Config, Env, Handler, Status, bad_request, conflict, internal_error, require, or_fail, internal,
  node_or_404, bump_netmap, log_event,
}

pub record PeerObserved : Type 0 where
  pub wg_public_key : Text
  pub endpoint : Text
  pub last_handshake_age_sec : ℤ

pub record StatusReport : Type 0 where
  pub endpoints_local : List Text
  pub advertised_routes : List Text
  pub peers_observed : List PeerObserved

abbrev pub max_reported_endpoints : ℕ
max_reported_endpoints = 8

abbrev pub last_with_key : Text → List Node → Option Node → Option Node
last_with_key key [] found = found
last_with_key key (n ∷ ns) found =
    last_with_key key ns (if text_eq key n.wg_pub_key then some n else found)

abbrev pub bump_if : Bool → Handler (Unit {0})
bump_if true = do bump_netmap; pure tt
bump_if false = pure tt

-- lockState: the key, and whether the lock is active
unfoldable pub lock_state : Handler (Text × Bool)
lock_state = do
  key ← internal get_lock_pubkey
  active ← internal get_lock_active
  pure (key, text_eq active (codes "1"))

module _ (env : Env) (cfg : Config) where
  -- one observed peer: whether its endpoint changed
  unfoldable pub observe : ℕ → List Node → PeerObserved → Handler Bool
  observe now ns po = elim (last_with_key po.wg_public_key ns none) [
    | none ↦ pure false
    | some n ↦
        let obs = sanitize_endpoints env.ip6 cfg.overlay_cidr (po.endpoint ∷ []) 1 in
        if is_empty obs
        then pure false
        else internal (replace_endpoints n.id (codes "observed") obs now)
  ]

  unfoldable pub observe_all : ℕ → List Node → List PeerObserved → Bool → Handler Bool
  observe_all now ns [] changed = pure changed
  observe_all now ns (po ∷ pos) changed = do
    one ← observe now ns po
    observe_all now ns pos (changed || one)

  -- only the hub reports what it observes
  unfoldable pub observations : ℕ → Node → List PeerObserved → Handler Bool
  observations now node peers =
      if is_hub node && not (is_empty peers)
      then (do ns ← internal nodes; observe_all now ns peers false)
      else pure false

  unfoldable pub handle_status : Option StatusReport → ℕ → Node → Handler (Unit {0})
  handle_status body now node = do
    rep ← or_fail body bad_request
    ep_changed ← internal (
        replace_endpoints node.id (codes "local")
          (sanitize_endpoints env.ip6 cfg.overlay_cidr rep.endpoints_local max_reported_endpoints)
          now)
    routes ← or_fail (normalize_routes env.ip6 cfg.overlay_cidr rep.advertised_routes) bad_request
    changes ← internal (set_advertised_routes node.id routes)
    observed ← observations now node rep.peers_observed
    bump_if (ep_changed || changes.1 || observed)

  abbrev pub key_error : {A : Type 0} → StoreErr → Handler A
  key_error unique = throw conflict
  key_error _ = throw internal_error

  unfoldable pub handle_rekey : Option Text → ℕ → Node → Handler (Unit {0})
  handle_rekey body now node = do
    key ← or_fail body bad_request
    require (env.valid_key key) bad_request
    if text_eq key node.wg_pub_key then pure tt else do
      catch (sql (set_node_key node.id key)) key_error
      bump_netmap
      log_event (codes "node.rekey") node.name
          (codes "узел " ++ (node.name ++ codes " сменил WireGuard-ключ")) now

  -- the loop over the other nodes: does one of them serve one of the routes?
  abbrev pub served_elsewhere : Node → List Text → List Node → Bool
  served_elsewhere node enabled ns =
      any (λ (o : Node). not (text_eq o.id node.id) && any (λ oe. elem oe enabled) o.routes_enabled)
        ns

  unfoldable pub handle_node_routes : Text → Option (List Text) → ℕ → Handler (Unit {0})
  handle_node_routes id body now = do
    node ← node_or_404 id
    wanted ← or_fail body bad_request
    enabled ← or_fail (normalize_routes env.ip6 cfg.overlay_cidr wanted) bad_request
    require (all (λ e. elem e node.routes_advertised) enabled) conflict
    ns ← internal nodes
    require (not (served_elsewhere node enabled ns)) conflict
    internal (set_enabled_routes node.id enabled)
    bump_netmap
    log_event (codes "node.routes") (codes "admin")
        (codes "для узла " ++ (node.name ++ (codes " включены подсети: " ++ join_csv enabled))) now

  unfoldable pub handle_node_approve : Text → ℕ → Handler (Unit {0})
  handle_node_approve id now = do
    node ← node_or_404 id
    if node.approved then pure tt else do
      internal (set_node_approved node.id true)
      bump_netmap
      log_event (codes "node.approve") (codes "admin")
          (codes "узел " ++ (node.name ++ codes " одобрен")) now

  unfoldable pub handle_node_tags : Text → Option (List Text) → ℕ → Handler (Unit {0})
  handle_node_tags id body now = do
    node ← node_or_404 id
    wanted ← or_fail body bad_request
    let tags = normalize_tags wanted
    internal (set_node_tags node.id tags)
    bump_netmap
    log_event (codes "node.tags") (codes "admin")
        (codes "узлу " ++ (node.name ++ (codes " заданы теги: " ++ join_csv tags))) now

  -- the deletion of the DNS record fails without effect on the handler
  unfoldable pub handle_node_delete : Text → ℕ → Handler (Unit {0})
  handle_node_delete id now = do
    node ← node_or_404 id
    internal (sql (delete_node node.id))
    bump_netmap
    log_event (codes "node.delete") (codes "admin")
        (codes "узел " ++ (node.name ++ codes " удалён")) now

  unfoldable pub build_netmap_for : ℕ → Node → ℕ → Handler Netmap
  build_netmap_for now node version = do
    ns ← internal nodes
    ss ← internal static_peers
    eps ← internal all_endpoints
    pubs ← (if is_hub node then internal publishes else pure [])
    lock ← lock_state
    pols ← internal policies
    or_fail
        (netmap_for env.ip6 cfg.overlay_cidr cfg.hub_endpoint cfg.mtu now node ns ss eps pubs
          (if lock.1 then lock.0 else []) pols version)
        internal_error

  -- One round of `handleNetmap` between two wakings: `none` waits for the next.
  unfoldable pub netmap_round : ℕ → ℕ → Node → Handler (Option Netmap)
  netmap_round since now node = if not node.approved then pure none else do
    version ← internal (sql (reading (λ db. db.netmap_version)))
    if not (ltb since version)
        then pure none
        else do nm ← build_netmap_for now node version; pure (some nm)

-- What a waking does to a node that waits for its approval: it is read again, if that succeeds.
unfoldable pub woken : Node → Handler Node
woken node =
    if node.approved then pure node else catch {F = Status} (node_by_id node.id) (λ _. pure node)

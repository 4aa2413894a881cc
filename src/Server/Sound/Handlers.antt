-- ===== src/Server/Sound/Handlers.antt =====
-- Well-formed databases and the handlers of internal/coordinator.
use home_kai.Base.{
  ℕ, Text, codes, Bool, false, Option, none, some, List, [], ◌∷◌, is_empty, if◌then◌else◌,
}
use home_kai.Model.{Node}
use home_kai.Normalize.{sanitize_endpoints}
use home_kai.Store.Calls.{replace_endpoints}
use home_kai.Store.Exec.{pure}
use home_kai.Store.Keeps.{Keeps, Keeps-bind}
use home_kai.Server.{Env, Config, Handler, internal}
use home_kai.Server.Nodes.{
  PeerObserved, StatusReport, last_with_key, observe, observe_all, observations, handle_status,
  handle_rekey, handle_node_routes, handle_node_approve, handle_node_tags, handle_node_delete,
}
use home_kai.Server.Lock.{
  Binding, Signature, handle_lock_init, sign_one, sign_all, handle_lock_sign, handle_lock_disable,
}
use home_kai.Server.Enroll.{TokenRequest, handle_token_create}
use home_kai.Server.Phones.{StaticPeerRequest, hub_node}
use home_kai.Server.Admin.{
  handle_static_peer_create, handle_static_peer_tags, handle_static_peer_delete,
  handle_policy_delete,
}
use home_kai.Server.Publishes.{handle_publish_delete}
use home_kai.Server.Sound.{Watch, holds}
use home_kai.Server.Sound.Sql.{
  statement_rules, lock_state-Keeps, pending_bindings-Keeps, key_error-Keeps,
}

module _ (env : Env) (cfg : Config) (watch : Watch) where
  seen_endpoint-Keeps :
      (now : ℕ) (po : PeerObserved) (o : Option Node)
      → Keeps (holds watch) (elim o as (λ x. Handler Bool) [
        | none ↦ pure false
        | some n ↦
            let obs = sanitize_endpoints env.ip6 cfg.overlay_cidr (po.endpoint ∷ []) 1 in
            if is_empty obs
            then pure false
            else internal (replace_endpoints n.id (codes "observed") obs now)
      ])
  seen_endpoint-Keeps now po none = search statement_rules
  seen_endpoint-Keeps now po (some n) = search statement_rules

  observe-Keeps :
      (now : ℕ) (ns : List Node) (po : PeerObserved)
      → Keeps (holds watch) (observe env cfg now ns po)
  unfolding observe
  observe-Keeps now ns po = seen_endpoint-Keeps now po (last_with_key po.wg_public_key ns none)

  observe_all-Keeps :
      (now : ℕ) (ns : List Node) (pos : List PeerObserved) (changed : Bool)
      → Keeps (holds watch) (observe_all env cfg now ns pos changed)
  unfolding observe_all
  observe_all-Keeps now ns [] changed = search statement_rules
  observe_all-Keeps now ns (po ∷ pos) changed =
      search (statement_rules, observe-Keeps, observe_all-Keeps now ns pos)

  observations-Keeps :
      (now : ℕ) (node : Node) (pos : List PeerObserved)
      → Keeps (holds watch) (observations env cfg now node pos)
  unfolding observations
  observations-Keeps now node pos = search (statement_rules, observe_all-Keeps)

  pub handle_status-Keeps :
      (body : Option StatusReport) (now : ℕ) (node : Node)
      → Keeps (holds watch) (handle_status env cfg body now node)
  unfolding handle_status
  handle_status-Keeps body now node = search (statement_rules, observations-Keeps) depth 20

  pub handle_rekey-Keeps :
      (body : Option Text) (now : ℕ) (node : Node)
      → Keeps (holds watch) (handle_rekey env cfg body now node)
  unfolding handle_rekey
  handle_rekey-Keeps body now node = search (statement_rules, key_error-Keeps) depth 20

  pub handle_node_routes-Keeps :
      (id : Text) (body : Option (List Text)) (now : ℕ)
      → Keeps (holds watch) (handle_node_routes env cfg id body now)
  unfolding handle_node_routes
  handle_node_routes-Keeps id body now = search statement_rules depth 30

  pub handle_node_approve-Keeps :
      (id : Text) (now : ℕ) → Keeps (holds watch) (handle_node_approve env cfg id now)
  unfolding handle_node_approve
  handle_node_approve-Keeps id now = search statement_rules depth 30

  pub handle_node_tags-Keeps :
      (id : Text) (body : Option (List Text)) (now : ℕ)
      → Keeps (holds watch) (handle_node_tags env cfg id body now)
  unfolding handle_node_tags
  handle_node_tags-Keeps id body now = search statement_rules depth 30

  pub handle_node_delete-Keeps :
      (id : Text) (now : ℕ) → Keeps (holds watch) (handle_node_delete env cfg id now)
  unfolding handle_node_delete
  handle_node_delete-Keeps id now = search statement_rules depth 30

  pub handle_lock_init-Keeps :
      (body : Option Text) (now : ℕ) → Keeps (holds watch) (handle_lock_init env body now)
  unfolding handle_lock_init
  handle_lock_init-Keeps body now = search (statement_rules, lock_state-Keeps) depth 30

  sign_one-Keeps :
      (key : Text) (bs : List Binding) (s : Signature) → Keeps (holds watch) (sign_one env key bs s)
  unfolding sign_one
  sign_one-Keeps key bs s = search statement_rules depth 30

  sign_all-Keeps :
      (key : Text) (bs : List Binding) (sigs : List Signature)
      → Keeps (holds watch) (sign_all env key bs sigs)
  unfolding sign_all
  sign_all-Keeps key bs [] = search statement_rules
  sign_all-Keeps key bs (s ∷ sigs) =
      Keeps-bind (sign_one env key bs s) (λ _. sign_all env key bs sigs) (sign_one-Keeps key bs s)
        (λ _. sign_all-Keeps key bs sigs)

  pub handle_lock_sign-Keeps :
      (body : Option (List Signature)) (now : ℕ)
      → Keeps (holds watch) (handle_lock_sign env body now)
  unfolding handle_lock_sign
  handle_lock_sign-Keeps body now =
      search (statement_rules, lock_state-Keeps, sign_all-Keeps, pending_bindings-Keeps) depth 40

  pub handle_lock_disable-Keeps : Keeps (holds watch) (handle_lock_disable env)
  unfolding handle_lock_disable
  handle_lock_disable-Keeps = search statement_rules depth 30

  pub handle_token_create-Keeps :
      (body : Option TokenRequest) (random : Option Text) (now : ℕ)
      → Keeps (holds watch) (handle_token_create env cfg body random now)
  unfolding handle_token_create
  handle_token_create-Keeps body random now = search statement_rules depth 30

  hub_node-Keeps : Keeps (holds watch) hub_node
  unfolding hub_node
  hub_node-Keeps = search statement_rules

  pub handle_static_peer_create-Keeps :
      (body : Option StaticPeerRequest) (keys : Option (Text × Text)) (random_id : Option Text)
      (dns : Text) (now : ℕ)
      → Keeps (holds watch) (handle_static_peer_create env cfg body keys random_id dns now)
  unfolding handle_static_peer_create
  handle_static_peer_create-Keeps body keys random_id dns now =
      search (statement_rules, hub_node-Keeps) depth 40

module _ (watch : Watch) where
  pub handle_static_peer_tags-Keeps :
      (id : Text) (body : Option (List Text)) (now : ℕ)
      → Keeps (holds watch) (handle_static_peer_tags id body now)
  unfolding handle_static_peer_tags
  handle_static_peer_tags-Keeps id body now = search statement_rules depth 30

  pub handle_static_peer_delete-Keeps :
      (id : Text) (now : ℕ) → Keeps (holds watch) (handle_static_peer_delete id now)
  unfolding handle_static_peer_delete
  handle_static_peer_delete-Keeps id now = search statement_rules depth 30

  pub handle_policy_delete-Keeps :
      (id : Text) (now : ℕ) → Keeps (holds watch) (handle_policy_delete id now)
  unfolding handle_policy_delete
  handle_policy_delete-Keeps id now = search statement_rules depth 30

  pub handle_publish_delete-Keeps :
      (id : Text) (now : ℕ) → Keeps (holds watch) (handle_publish_delete id now)
  unfolding handle_publish_delete
  handle_publish_delete-Keeps id now = search statement_rules depth 30

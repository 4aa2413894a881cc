-- ===== src/Server/Routes.antt =====
-- The calls of `Server.Handler` (internal/coordinator/server.go) that change the state, each behind its
-- check of who calls.
use home_kai.Base.{ℕ, Text, Option, List}
use home_kai.Store.Exec.{pure, ◌>>=◌}
use home_kai.Server.{Env, Config, Handler, with_node}
use home_kai.Server.Nodes.{
  StatusReport, handle_status, handle_rekey, handle_node_routes, handle_node_approve,
  handle_node_tags, handle_node_delete,
}
use home_kai.Server.Lock.{Signature, handle_lock_init, handle_lock_sign, handle_lock_disable}
use home_kai.Server.Enroll.{EnrollRequest, TokenRequest, handle_enroll, handle_token_create}
use home_kai.Server.Phones.{StaticPeerRequest}
use home_kai.Server.Admin.{
  PolicyRequest, handle_static_peer_create, handle_static_peer_tags, handle_static_peer_delete,
  handle_policy_create, handle_policy_delete,
}
use home_kai.Server.Publishes.{PublishRequest, handle_publish_create, handle_publish_delete}
use home_kai.Server.Sessions.{with_admin, handle_admin_login, handle_admin_logout}

-- The bearer token, the header of the web interface and the session cookie.
pub record Caller : Type 0 where
  pub token : Text
  pub header : Text
  pub cookie : Option Text

-- What a request carries, with what is random in its answer.
pub data Request : Type 0 where
  enroll :
      (body : Option EnrollRequest) (random_id random_secret : Option Text) (dns : Text) → Request
  token_create : (body : Option TokenRequest) (random : Option Text) → Request
  status : (body : Option StatusReport) → Request
  rekey : (body : Option Text) → Request
  node_routes : (id : Text) (body : Option (List Text)) → Request
  node_approve : (id : Text) → Request
  node_tags : (id : Text) (body : Option (List Text)) → Request
  node_delete : (id : Text) → Request
  lock_init : (body : Option Text) → Request
  lock_sign : (body : Option (List Signature)) → Request
  lock_disable : Request
  static_peer_create :
      (body : Option StaticPeerRequest) (keys : Option (Text × Text)) (random_id : Option Text)
      (dns : Text)
      → Request
  static_peer_tags : (id : Text) (body : Option (List Text)) → Request
  static_peer_delete : (id : Text) → Request
  policy_create : (body : Option PolicyRequest) (random_id : Option Text) → Request
  policy_delete : (id : Text) → Request
  publish_create : (body : Option PublishRequest) (random_id : Option Text) → Request
  publish_delete : (id : Text) → Request
  login : (body : Option Text) (random_id : Option Text) → Request
  logout : Request

-- The body of an answer is dropped.
abbrev pub served : {A : Type 0} → Handler A → Handler (Unit {0})
served m = m >>= λ _. pure tt

module _ (env : Env) (cfg : Config) (now : ℕ) where
  abbrev as_admin : {A : Type 0} → Caller → Handler A → Handler (Unit {0})
  as_admin c m = with_admin env cfg c.token c.header c.cookie now (served m)

-- `split` is net.SplitHostPort.
module _ (env : Env) (cfg : Config) (split : Text → Option (Text × Text)) (now : ℕ) where
  unfoldable pub respond : Caller → Request → Handler (Unit {0})
  respond c (enroll body id secret dns) =
      served (handle_enroll env cfg c.token body id secret dns now)
  respond c (token_create body random) =
      as_admin env cfg now c (handle_token_create env cfg body random now)
  respond c (status body) = with_node env c.token now (handle_status env cfg body now)
  respond c (rekey body) = with_node env c.token now (handle_rekey env cfg body now)
  respond c (node_routes id body) = as_admin env cfg now c (handle_node_routes env cfg id body now)
  respond c (node_approve id) = as_admin env cfg now c (handle_node_approve env cfg id now)
  respond c (node_tags id body) = as_admin env cfg now c (handle_node_tags env cfg id body now)
  respond c (node_delete id) = as_admin env cfg now c (handle_node_delete env cfg id now)
  respond c (lock_init body) = as_admin env cfg now c (handle_lock_init env body now)
  respond c (lock_sign body) = as_admin env cfg now c (handle_lock_sign env body now)
  respond c lock_disable = as_admin env cfg now c (handle_lock_disable env)
  respond c (static_peer_create body keys id dns) =
      as_admin env cfg now c (handle_static_peer_create env cfg body keys id dns now)
  respond c (static_peer_tags id body) =
      as_admin env cfg now c (handle_static_peer_tags id body now)
  respond c (static_peer_delete id) = as_admin env cfg now c (handle_static_peer_delete id now)
  respond c (policy_create body id) = as_admin env cfg now c (handle_policy_create body id now)
  respond c (policy_delete id) = as_admin env cfg now c (handle_policy_delete id now)
  respond c (publish_create body id) =
      as_admin env cfg now c (handle_publish_create env cfg split body id now)
  respond c (publish_delete id) = as_admin env cfg now c (handle_publish_delete id now)
  respond c (login body id) = served (handle_admin_login env cfg body id now)
  respond c logout = handle_admin_logout env c.cookie

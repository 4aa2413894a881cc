-- ===== src/Server/Sound/Reach.antt =====
-- The states that the coordinator reaches: any calls of its handlers, in any order, with any faults of
-- the database.
use home_kai.Base.{ℕ, Text, Bool, true, Option, none, some, ◌≡◌, List, [], arith}
use home_kai.Model.{Node}
use home_kai.Store.Exec.{World, Db}
use home_kai.Store.Keeps.{Keeps, Keeps-bind}
use home_kai.Server.{Env, Config, Handler, with_node}
use home_kai.Server.Sessions.{
  with_admin, has_admin_session, judged, expiry_of, add_session, handle_admin_login,
  handle_admin_logout,
}
use home_kai.Server.Names.{Provider, backfill_dns}
use home_kai.Server.Routes.{
  Caller, Request, enroll, token_create, status, rekey, node_routes, node_approve, node_tags,
  node_delete, lock_init, lock_sign, lock_disable, static_peer_create, static_peer_tags,
  static_peer_delete, policy_create, policy_delete, publish_create, publish_delete, login, logout,
  served, respond,
}
use home_kai.Server.Sound.{Watch, watching, holds, is_sound}
use home_kai.Server.Sound.Handlers.{
  handle_status-Keeps, handle_rekey-Keeps, handle_node_routes-Keeps, handle_node_approve-Keeps,
  handle_node_tags-Keeps, handle_node_delete-Keeps, handle_lock_init-Keeps, handle_lock_sign-Keeps,
  handle_lock_disable-Keeps, handle_token_create-Keeps, handle_static_peer_create-Keeps,
  handle_static_peer_tags-Keeps, handle_static_peer_delete-Keeps, handle_policy_delete-Keeps,
  handle_publish_delete-Keeps,
}
use home_kai.Server.Sound.Enrolling.{handle_enroll-Keeps}
use home_kai.Server.Sound.Naming.{backfill_dns-Keeps}
use home_kai.Server.Sound.Creation.{handle_policy_create-Keeps, handle_publish_create-Keeps}
use home_kai.Server.Sound.Actions.{require-Keeps}
use home_kai.Server.Sound.Writes.{writing_rules}

module _ {p : Db → Bool} (env : Env) (cfg : Config) where
  judged-Keeps : (hash : Text) (now : ℕ) (o : Option ℕ) → Keeps p (judged hash now o)
  judged-Keeps hash now none = record { at = λ w h. h }
  judged-Keeps hash now (some e) = record { at = λ w h. ground (arith, h) }

  has_admin_session-Keeps :
      (header : Text) (cookie : Option Text) (now : ℕ)
      → Keeps p (has_admin_session env header cookie now)
  unfolding has_admin_session
  has_admin_session-Keeps header none now = record { at = λ w h. h }
  has_admin_session-Keeps header (some value) now = record {
    at = λ w h. ground (
      arith,
      h,
      (judged-Keeps (env.sha256hex value) now (expiry_of (env.sha256hex value) w.sessions)).at w h,
    );
  }

  with_admin-Keeps :
      {A : Type 0} (token header : Text) (cookie : Option Text) (now : ℕ) (m : Handler A)
      → Keeps p m
      → Keeps p (with_admin env cfg token header cookie now m)
  unfolding with_admin
  with_admin-Keeps token header cookie now m k =
      Keeps-bind _ _ (search (writing_rules, has_admin_session-Keeps))
        (λ allowed. Keeps-bind _ _ (require-Keeps allowed _) (λ _. k))

  served-Keeps : {A : Type 0} (m : Handler A) → Keeps p m → Keeps p (served m)
  served-Keeps m k = Keeps-bind _ _ k (λ _. search writing_rules)

  add_session-Keeps : (hash : Text) (now : ℕ) → Keeps p (add_session hash now)
  unfolding add_session
  add_session-Keeps hash now = record { at = λ w h. h }

  handle_admin_logout-Keeps : (cookie : Option Text) → Keeps p (handle_admin_logout env cookie)
  unfolding handle_admin_logout
  handle_admin_logout-Keeps none = record { at = λ w h. h }
  handle_admin_logout-Keeps (some value) = record { at = λ w h. ground (arith, h) }

module _ (env : Env) (cfg : Config) (watch : Watch) where
  handle_admin_login-Keeps :
      (body random_id : Option Text) (now : ℕ)
      → Keeps (holds watch) (handle_admin_login env cfg body random_id now)
  unfolding handle_admin_login
  handle_admin_login-Keeps body random_id now = search (writing_rules, add_session-Keeps) depth 20

  with_node-Keeps :
      {A : Type 0} (tok : Text) (now : ℕ) (h : Node → Handler A)
      → ((n : Node) → Keeps (holds watch) (h n))
      → Keeps (holds watch) (with_node env tok now h)
  unfolding with_node
  with_node-Keeps tok now h k = Keeps-bind _ _ (require-Keeps _ _) (λ _.
      Keeps-bind _ _ (search writing_rules)
        (λ node. Keeps-bind _ _ (search writing_rules) (λ _. k node)))

module _ (env : Env) (cfg : Config) (spent : List Text) (now : ℕ) where
  abbrev kept : Db → Bool
  kept = holds (watching cfg spent)

  as_admin-Keeps :
      {A : Type 0} (c : Caller) (m : Handler A)
      → Keeps kept m
      → Keeps kept (with_admin env cfg c.token c.header c.cookie now (served m))
  as_admin-Keeps c m k =
      with_admin-Keeps env cfg c.token c.header c.cookie now (served m) (served-Keeps env cfg m k)

  respond-Keeps :
      (split : Text → Option (Text × Text)) (c : Caller) (r : Request)
      → Keeps kept (respond env cfg split now c r)
  unfolding respond
  respond-Keeps split c (enroll body id secret dns) =
      served-Keeps env cfg _
        (handle_enroll-Keeps env cfg (watching cfg spent) c.token body id secret dns now)
  respond-Keeps split c (token_create body random) =
      as_admin-Keeps c _ (handle_token_create-Keeps env cfg (watching cfg spent) body random now)
  respond-Keeps split c (status body) =
      with_node-Keeps env cfg (watching cfg spent) c.token now _
        (handle_status-Keeps env cfg (watching cfg spent) body now)
  respond-Keeps split c (rekey body) =
      with_node-Keeps env cfg (watching cfg spent) c.token now _
        (handle_rekey-Keeps env cfg (watching cfg spent) body now)
  respond-Keeps split c (node_routes id body) =
      as_admin-Keeps c _ (handle_node_routes-Keeps env cfg (watching cfg spent) id body now)
  respond-Keeps split c (node_approve id) =
      as_admin-Keeps c _ (handle_node_approve-Keeps env cfg (watching cfg spent) id now)
  respond-Keeps split c (node_tags id body) =
      as_admin-Keeps c _ (handle_node_tags-Keeps env cfg (watching cfg spent) id body now)
  respond-Keeps split c (node_delete id) =
      as_admin-Keeps c _ (handle_node_delete-Keeps env cfg (watching cfg spent) id now)
  respond-Keeps split c (lock_init body) =
      as_admin-Keeps c _ (handle_lock_init-Keeps env cfg (watching cfg spent) body now)
  respond-Keeps split c (lock_sign body) =
      as_admin-Keeps c _ (handle_lock_sign-Keeps env cfg (watching cfg spent) body now)
  respond-Keeps split c lock_disable =
      as_admin-Keeps c _ (handle_lock_disable-Keeps env cfg (watching cfg spent))
  respond-Keeps split c (static_peer_create body keys id dns) =
      as_admin-Keeps c _
        (handle_static_peer_create-Keeps env cfg (watching cfg spent) body keys id dns now)
  respond-Keeps split c (static_peer_tags id body) =
      as_admin-Keeps c _ (handle_static_peer_tags-Keeps (watching cfg spent) id body now)
  respond-Keeps split c (static_peer_delete id) =
      as_admin-Keeps c _ (handle_static_peer_delete-Keeps (watching cfg spent) id now)
  respond-Keeps split c (policy_create body id) =
      as_admin-Keeps c _ (handle_policy_create-Keeps (watching cfg spent) body id now)
  respond-Keeps split c (policy_delete id) =
      as_admin-Keeps c _ (handle_policy_delete-Keeps (watching cfg spent) id now)
  respond-Keeps split c (publish_create body id) =
      as_admin-Keeps c _ (handle_publish_create-Keeps env cfg spent split body id now)
  respond-Keeps split c (publish_delete id) =
      as_admin-Keeps c _ (handle_publish_delete-Keeps (watching cfg spent) id now)
  respond-Keeps split c (login body id) =
      served-Keeps env cfg _ (handle_admin_login-Keeps env cfg (watching cfg spent) body id now)
  respond-Keeps split c logout = handle_admin_logout-Keeps env cfg c.cookie

-- From `start`: requests are served one after another, the names of devices are filled in, and which
-- calls of the database fail may change in between.
pub data Reach (env : Env) (cfg : Config) (split : Text → Option (Text × Text)) (start : World)
    : World → Type 1 where
  starts : Reach env cfg split start start
  serves :
      {w : World} (now : ℕ) (c : Caller) (r : Request)
      → Reach env cfg split start w
      → Reach env cfg split start (respond env cfg split now c r w).1
  breaks :
      {w : World} (faults : List Bool)
      → Reach env cfg split start w
      → Reach env cfg split start (record w { faults = faults })
  backfills :
      {S : Type 0} {w : World} (provider : Provider S) (domain : Text) (s : S)
      → Reach env cfg split start w
      → Reach env cfg split start (backfill_dns provider domain s w).1

module _ (env : Env) (cfg : Config) (split : Text → Option (Text × Text)) {start : World} where
  pub Reach-holds :
      {w : World} (spent : List Text)
      → holds (watching cfg spent) start.db ≡ true
      → Reach env cfg split start w
      → holds (watching cfg spent) w.db ≡ true
  Reach-holds spent h starts = h
  Reach-holds spent h (serves {w = w} now c r k) =
      (respond-Keeps env cfg spent now split c r).at w (Reach-holds spent h k)
  Reach-holds spent h (breaks faults k) = Reach-holds spent h k
  Reach-holds spent h (backfills {w = w} provider domain s k) =
      (backfill_dns-Keeps (watching cfg spent) provider domain s).at w (Reach-holds spent h k)

  -- From a well-formed database, in every state that calls of the handlers and of BackfillDNS
  -- reach, in any order and whichever calls of the database fail: no two nodes share an id, a key
  -- or an address, and at most one of them is a hub; no two static peers an id, a name, a key or an
  -- address, and no two published ports an id, a name or a port; every published port is between 1
  -- and 65535 and not reserved; and every policy has nonempty ports without commas, and none where
  -- its protocol has none.
  pub Reach-is_sound :
      {w : World}
      → is_sound cfg.reserved_ports start.db ≡ true
      → Reach env cfg split start w
      → is_sound cfg.reserved_ports w.db ≡ true
  unfolding holds
  Reach-is_sound h k = ground (arith, Reach-holds [] (ground (arith, h)) k)

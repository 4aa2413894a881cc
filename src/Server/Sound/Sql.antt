-- ===== src/Server/Sound/Sql.antt =====
-- Well-formed databases and single statements and reads of the handlers of internal/coordinator.
use home_kai.Base.{Text, Bool, refl, List}
use home_kai.Model.{StaticPeer}
use home_kai.Store.Exec.{Db, StoreErr, not_found, unique, io, sql}
use home_kai.Store.Keeps.{Keeps, Keeps-sql}
use home_kai.Store.Rows.{
  column, set_node_key, delete_node, insert_static, update_static, delete_static, delete_policy,
  delete_publish,
}
use home_kai.Server.{Env, Config}
use home_kai.Server.Nodes.{key_error, lock_state}
use home_kai.Server.Lock.{pending_bindings}
use home_kai.Server.Enroll.{token_error}
use home_kai.Server.Sound.{Watch, holds}
use home_kai.Server.Sound.Statements.{
  set_node_key-Sound, delete_node-Sound, insert_static-Sound, update_static-Sound,
  delete_static-Sound, delete_policy-Sound, delete_publish-Sound,
}
use home_kai.Server.Sound.Writes.{writing_rules}

module _ (watch : Watch) where
  pub set_node_key-Keeps : (id key : Text) → Keeps (holds watch) (sql (set_node_key id key))
  set_node_key-Keeps id key = Keeps-sql (set_node_key id key) (set_node_key-Sound watch id key)

  pub delete_node-Keeps : (id : Text) → Keeps (holds watch) (sql (delete_node id))
  delete_node-Keeps id = Keeps-sql (delete_node id) (delete_node-Sound watch id)

  pub insert_static-Keeps : (p : StaticPeer) → Keeps (holds watch) (sql (insert_static p))
  insert_static-Keeps p = Keeps-sql (insert_static p) (insert_static-Sound watch p)

  pub tag_static-Keeps :
      (id : Text) (tags : List Text)
      → Keeps (holds watch) (sql (update_static id (λ p. record p { tags = column tags })))
  tag_static-Keeps id tags = Keeps-sql _ (
      update_static-Sound watch id (λ p. record p { tags = column tags })
        (λ p. (refl, refl, refl, refl)))

  pub sign_static-Keeps :
      (id sig : Text)
      → Keeps (holds watch) (sql (update_static id (λ p. record p { lock_sig = sig })))
  sign_static-Keeps id sig = Keeps-sql _ (
      update_static-Sound watch id (λ p. record p { lock_sig = sig })
        (λ p. (refl, refl, refl, refl)))

  pub delete_static-Keeps : (id : Text) → Keeps (holds watch) (sql (delete_static id))
  delete_static-Keeps id = Keeps-sql (delete_static id) (delete_static-Sound watch id)

  pub delete_policy-Keeps : (id : Text) → Keeps (holds watch) (sql (delete_policy id))
  delete_policy-Keeps id = Keeps-sql (delete_policy id) (delete_policy-Sound watch id)

  pub delete_publish-Keeps : (id : Text) → Keeps (holds watch) (sql (delete_publish id))
  delete_publish-Keeps id = Keeps-sql (delete_publish id) (delete_publish-Sound watch id)

pub ruleset statement_rules = (
  writing_rules, set_node_key-Keeps, delete_node-Keeps, insert_static-Keeps, tag_static-Keeps,
  sign_static-Keeps, delete_static-Keeps, delete_policy-Keeps, delete_publish-Keeps,
)

module _ {p : Db → Bool} where
  pub lock_state-Keeps : Keeps p lock_state
  unfolding lock_state
  lock_state-Keeps = search writing_rules

  pub pending_bindings-Keeps : Keeps p pending_bindings
  unfolding pending_bindings
  pending_bindings-Keeps = search writing_rules

module _ {p : Db → Bool} (env : Env) (cfg : Config) where
  pub key_error-Keeps : {A : Type 0} (e : StoreErr) → Keeps {A = A} p (key_error env cfg e)
  key_error-Keeps not_found = search writing_rules
  key_error-Keeps unique = search writing_rules
  key_error-Keeps io = search writing_rules

  pub token_error-Keeps : {A : Type 0} (e : StoreErr) → Keeps {A = A} p (token_error env cfg e)
  token_error-Keeps not_found = search writing_rules
  token_error-Keeps unique = search writing_rules
  token_error-Keeps io = search writing_rules

-- ===== src/Server/Sessions.antt =====
-- internal/coordinator/session.go: the sessions of the web interface.
pub mod Lifetime
use home_kai.Base.{
  ℕ, ◌+◌, ◌*◌, ◌<◌, Text, codes, text_eq, elem, Bool, true, false, not, ◌&&◌, ◌||◌, Option, none,
  some, List, [], ◌∷◌, ◌++◌, any, keep, find, ltb, leb, ◌==◌, is_empty, if◌then◌else◌,
}
use home_kai.Base.Int.{ℤ, pos, negsuc, to_ℕ}
use home_kai.Text.{join_csv, join_or}
use home_kai.Netip.{show_addr, show_decimal, contains}
use home_kai.Netip.Parse.{parse_addr, cut_last}
use home_kai.Model.{StaticPeer, Policy, Publish, hosts_suffix, hour}
use home_kai.Normalize.{normalize_tags, normalize_ports, port_value, port_in_range}
use home_kai.Netmap.{is_hub}
use home_kai.Store.Exec.{
  World, StoreErr, not_found, unique, Result, ok, err, Exec, pure, throw, catch, sql, ◌>>=◌, ◌>>◌,
}
use home_kai.Store.Rows.{
  column, insert_static, update_static, delete_static, insert_policy, delete_policy, insert_publish,
  delete_publish,
}
use home_kai.Store.Calls.{nodes}
use home_kai.Server.{
  Config, Env, Handler, Status, bad_request, unauthorized, missing, conflict, internal_error,
  require, or_fail, internal, missing_or_internal, static_peer_or_404, allocate, bump_netmap,
  log_event,
}

abbrev pub session_ttl : ℕ
session_ttl = 30 * 24 * hour

abbrev pub Sessions : Type 0
Sessions = List (Text × ℕ)

abbrev pub expiry_of : Text → Sessions → Option ℕ
expiry_of hash [] = none
expiry_of hash ((h, e) ∷ rest) =
    let other = expiry_of hash rest in if text_eq hash h then some e else other

abbrev pub forget : Text → Sessions → Sessions
forget hash ss = keep (λ (s : Text × ℕ). not (text_eq hash s.0)) ss

-- handleAdminLogin: expired sessions go, and the new one is added
unfoldable pub add_session : Text → ℕ → Handler (Unit {0})
add_session hash now w = (
  ok tt,
  record w {
    sessions =
        (hash, now + session_ttl)
        ∷ forget hash (keep (λ (s : Text × ℕ). not (ltb s.1 now)) w.sessions);
  },
)

abbrev pub judged : Text → ℕ → Option ℕ → World → Result Status Bool × World
judged hash now none w = (ok false, w)
judged hash now (some e) w =
    if ltb e now then (ok false, record w { sessions = forget hash w.sessions }) else (ok true, w)

module _ (env : Env) where
  -- hasAdminSession: `header` is the UI header, `cookie` the value of the session cookie
  unfoldable pub has_admin_session : Text → Option Text → ℕ → Handler Bool
  has_admin_session header none now w = (ok false, w)
  has_admin_session header (some value) now w =
      if is_empty header || is_empty value
      then (ok false, w)
      else judged (env.sha256hex value) now (expiry_of (env.sha256hex value) w.sessions) w

  unfoldable pub handle_admin_logout : Option Text → Handler (Unit {0})
  handle_admin_logout none w = (ok tt, w)
  handle_admin_logout (some value) w =
      if is_empty value
      then (ok tt, w)
      else (ok tt, record w { sessions = forget (env.sha256hex value) w.sessions })

  module _ (cfg : Config) where
    unfoldable pub admin_token_matches : Text → Bool
    admin_token_matches token = text_eq (env.sha256hex token) cfg.admin_token_hash

    -- withAdmin: the session is looked at only where the token does not match
    unfoldable pub with_admin : {A : Type 0} → Text → Text → Option Text → ℕ → Handler A → Handler A
    with_admin token header cookie now h = do
      allowed ←
          (if admin_token_matches token then pure true else has_admin_session header cookie now)
      require allowed unauthorized
      h

    unfoldable pub handle_admin_login : Option Text → Option Text → ℕ → Handler Text
    handle_admin_login body random_id now = do
      token ← or_fail body bad_request
      require (admin_token_matches token) unauthorized
      id ← or_fail random_id internal_error
      add_session (env.sha256hex id) now
      log_event (codes "admin.login") (codes "admin") (codes "вход в панель управления") now
      pure id

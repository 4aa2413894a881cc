-- ===== src/Server/Sessions/Lifetime.antt =====
-- Login, logout and the check of a session in internal/coordinator/session.go.
use home_kai.Base.{
  ℕ, ◌+◌, Text, text_eq_refl, false, not, Option, none, some, ◌≡◌, ◌∙◌, refl, [], ◌∷◌, is_empty,
  arith, ltb,
}
use home_kai.Store.Exec.{World, ok, err, ◌>>=◌, throw}
use home_kai.Server.{Env, Config, Handler, unauthorized, require}
use home_kai.Server.Sessions.{
  session_ttl, Sessions, expiry_of, forget, has_admin_session, add_session, handle_admin_logout,
  admin_token_matches, with_admin,
}

expiry_of-forget : (h : Text) (ss : Sessions) → expiry_of h (forget h ss) ≡ none
expiry_of-forget h [] = refl
expiry_of-forget h ((g, e) ∷ ss) = ground (arith, expiry_of-forget h ss)

module _ (env : Env) where
  -- The session that a login opens is accepted until 30 days later, and not after that, for a
  -- request with the header and a nonempty cookie.
  pub session_lifetime :
      (header value : Text) (now later : ℕ) (w : World)
      → is_empty header ≡ false
      → is_empty value ≡ false
      → (has_admin_session env header
          (some value)
          later
          (add_session (env.sha256hex value) now w).1).0
        ≡ ok (not (ltb (now + session_ttl) later))
  unfolding has_admin_session add_session
  session_lifetime header value now later w h v = ground (arith, text_eq_refl (env.sha256hex value))

  -- After a logout its session is accepted at no time.
  pub logout_ends :
      (header value : Text) (later : ℕ) (w : World)
      → (has_admin_session env header
          (some value)
          later
          (handle_admin_logout env (some value) w).1).0
        ≡ ok false
  unfolding has_admin_session handle_admin_logout
  logout_ends header value later w =
      ground (arith, expiry_of-forget (env.sha256hex value) w.sessions)

  has_admin_session-db :
      (header : Text) (cookie : Option Text) (now : ℕ) (w : World)
      → (has_admin_session env header cookie now w).1.db ≡ w.db
  unfolding has_admin_session
  has_admin_session-db header none now w = refl
  has_admin_session-db header (some value) now w = ground arith

  logout-db : (cookie : Option Text) (w : World) → (handle_admin_logout env cookie w).1.db ≡ w.db
  unfolding handle_admin_logout
  logout-db none w = refl
  logout-db (some value) w = ground arith

  module _ (cfg : Config) where
    -- After a logout, a call of the administrator that carries no valid token and the cookie of
    -- that session is answered with 401 and changes nothing in the database.
    pub logged_out_refused :
        {A : Type 0} (token header value : Text) (later : ℕ) (h : Handler A) (w : World)
        → admin_token_matches env cfg token ≡ false
        → let w' = (handle_admin_logout env (some value) w).1 in
          let (r, after) = with_admin env cfg token header (some value) later h w' in
          (r ≡ err unauthorized) × (after.db ≡ w.db)
    unfolding with_admin ◌>>=◌ require throw
    logged_out_refused token header value later h w m =
        rw (m, logout_ends header value later w)
          (
            refl,
            has_admin_session-db header (some value) later
                  (handle_admin_logout env (some value) w).1
                ∙ logout-db (some value) w,
          )

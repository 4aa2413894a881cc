-- ===== src/Server/Sound/Once.antt =====
-- An enroll token admits one node (internal/coordinator/node.go, store/store.go).
use home_kai.Base.{ℕ, ◌+◌, Text, Bool, true, false, ◌≡◌, refl, Option, List, [], ◌∷◌, arith}
use home_kai.Model.{Node}
use home_kai.Netip.{show_addr}
use home_kai.Store.Exec.{
  World, Db, StoreErr, not_found, unique, io, Result, ok, err, recover, catch, sql, attempt, throw,
}
use home_kai.Store.Keeps.{Keeps, Keeps-sql}
use home_kai.Store.Rows.{enroll_node, append_event, trim_events}
use home_kai.Store.Calls.{bump_netmap_version, add_event}
use home_kai.Store.Outcomes.{
  is_ok, Fails, Fails-bind, Fails-first, Yields, Yields-bind, Yields-first,
}
use home_kai.Server.{Env, Config, bump_netmap, log_event}
use home_kai.Server.Enroll.{
  EnrollRequest, role_of, overlay_ip_for, token_error, enrolled_node, handle_enroll,
}
use home_kai.Server.Sound.{is_sound, is_spent, holds, watching}
use home_kai.Server.Sound.Actions.{require-Keeps, or_fail-Keeps}
use home_kai.Server.Sound.Shared.{reading_rules}
use home_kai.Server.Sound.Enrolling.{handle_enroll-Keeps}
use home_kai.Server.Sound.Spent.{enroll_spends, spent_refused}
use home_kai.Server.Sound.Reach.{Reach, Reach-holds}

module _ (env : Env) (cfg : Config) where
  abbrev spends : Text → Db → Bool
  spends h db = is_spent h db.tokens

  counted-Keeps :
      (h : Text)
      → Keeps {E = StoreErr} {A = Unit {0}}
          (spends h)
          (sql (λ db. (ok tt, record db { netmap_version = db.netmap_version + 1 })))
  counted-Keeps h = Keeps-sql _ (λ db k. k)

  bump_netmap_version-Keeps : (h : Text) → Keeps (spends h) bump_netmap_version
  unfolding bump_netmap_version
  bump_netmap_version-Keeps h = search (reading_rules, counted-Keeps)

  bump_netmap-Keeps : (h : Text) → Keeps (spends h) bump_netmap
  unfolding bump_netmap
  bump_netmap-Keeps h = search (reading_rules, bump_netmap_version-Keeps)

  append_event-Keeps :
      (h kind actor message : Text) (now : ℕ)
      → Keeps (spends h) (sql (append_event kind actor message now))
  unfolding append_event
  append_event-Keeps h kind actor message now = Keeps-sql _ (λ db k. k)

  trim_events-Keeps : (h : Text) (id : ℕ) → Keeps (spends h) (sql (trim_events id))
  unfolding trim_events
  trim_events-Keeps h id = Keeps-sql _ (λ db k. k)

  add_event-Keeps :
      (h kind actor message : Text) (now : ℕ) → Keeps (spends h) (add_event kind actor message now)
  unfolding add_event
  add_event-Keeps h kind actor message now =
      search (reading_rules, append_event-Keeps, trim_events-Keeps)

  log_event-Keeps :
      (h kind actor message : Text) (now : ℕ) → Keeps (spends h) (log_event kind actor message now)
  unfolding log_event
  log_event-Keeps h kind actor message now = search (reading_rules, add_event-Keeps)

  settled :
      (q : Db → Bool) (r : Result StoreErr Node) (v : World)
      → (is_ok r ≡ true → q v.db ≡ true)
      → is_ok (recover (token_error env cfg) r v).0 ≡ true
      → q (recover (token_error env cfg) r v).1.db ≡ true
  unfolding throw
  settled q (ok a) v k h = k refl
  settled q (err not_found) v k h = absurd (ground (arith, h))
  settled q (err unique) v k h = absurd (ground (arith, h))
  settled q (err io) v k h = absurd (ground (arith, h))

  enroll_node-Yields :
      (h : Text) (now : ℕ) (n : Node)
      → Yields (spends h) (catch (sql (enroll_node h now n)) (token_error env cfg))
  unfolding catch sql attempt throw
  enroll_node-Yields h now n = record { at = λ w k. go w w.faults k }
    where
      go :
          (w : World) (faults : List Bool)
          → let m = catch (sql (enroll_node h now n)) (token_error env cfg) in
            is_ok (m (record w { faults = faults })).0 ≡ true
            → spends h (m (record w { faults = faults })).1.db ≡ true
      go w [] k =
          settled (spends h) (enroll_node h now n w.db).0
            (record w { db = (enroll_node h now n w.db).1; faults = [] })
            (enroll_spends h now n w.db) k
      go w (true ∷ faults) k = absurd (ground (arith, k))
      go w (false ∷ faults) k =
          settled (spends h) (enroll_node h now n w.db).0
            (record w { db = (enroll_node h now n w.db).1; faults = faults })
            (enroll_spends h now n w.db) k

  handle_enroll-Yields :
      (tok : Text) (body : Option EnrollRequest) (random_id random_secret : Option Text)
      (dns : Text) (now : ℕ)
      → Yields
          (spends (env.sha256hex tok))
          (handle_enroll env cfg tok body random_id random_secret dns now)
  unfolding handle_enroll
  handle_enroll-Yields tok body random_id random_secret dns now = Yields-bind _ _ (λ _.
      Yields-bind _ _ (λ req. Yields-bind _ _ (λ _. Yields-bind _ _ (λ _. Yields-bind _ _ (λ _.
        Yields-bind _ _ (λ ns. Yields-bind _ _ (λ addr. Yields-bind _ _ (λ id.
          Yields-bind _ _ (λ secret.
            Yields-first _ _
              (enroll_node-Yields (env.sha256hex tok) now
                (enrolled_node env cfg req id secret (show_addr env.ip6 addr) dns now))
              (λ node. search (reading_rules, bump_netmap-Keeps, log_event-Keeps) depth 20))))))))))

  overlay_ip_for-Keeps :
      {p : Db → Bool} (role : Text) (ns : List Node) → Keeps p (overlay_ip_for env cfg role ns)
  unfolding overlay_ip_for
  overlay_ip_for-Keeps role ns = search reading_rules

  enroll_node-Fails :
      (h : Text) (now : ℕ) (n : Node)
      → Fails (spends h) (catch (sql (enroll_node h now n)) (token_error env cfg))
  unfolding catch sql attempt throw
  enroll_node-Fails h now n = record { at = λ w k. go w k w.faults }
    where
      go :
          (w : World)
          → spends h w.db ≡ true
          → (faults : List Bool)
          → is_ok
              (catch
                (sql (enroll_node h now n))
                (token_error env cfg)
                (record w { faults = faults })).0
            ≡ false
      go w k [] = rw (spent_refused h now n w.db k) refl
      go w k (true ∷ faults) = refl
      go w k (false ∷ faults) = rw (spent_refused h now n w.db k) refl

  handle_enroll-Fails :
      (tok : Text) (body : Option EnrollRequest) (random_id random_secret : Option Text)
      (dns : Text) (now : ℕ)
      → Fails
          (spends (env.sha256hex tok))
          (handle_enroll env cfg tok body random_id random_secret dns now)
  unfolding handle_enroll
  handle_enroll-Fails tok body random_id random_secret dns now =
      Fails-bind _ _ (require-Keeps _ _) (λ _. Fails-bind _ _ (or_fail-Keeps body _) (λ req.
        Fails-bind _ _ (require-Keeps _ _) (λ _. Fails-bind _ _ (require-Keeps _ _) (λ _.
          Fails-bind _ _ (require-Keeps _ _) (λ _. Fails-bind _ _ (search reading_rules) (λ ns.
            Fails-bind _ _ (overlay_ip_for-Keeps (role_of req) ns) (λ addr.
              Fails-bind _ _ (or_fail-Keeps random_id _) (λ id.
                Fails-bind _ _ (or_fail-Keeps random_secret _) (λ secret. Fails-first _ _ (
                  enroll_node-Fails (env.sha256hex tok) now
                    (enrolled_node env cfg req id secret (show_addr env.ip6 addr) dns now)))))))))))

module _ (env : Env) (cfg : Config) (split : Text → Option (Text × Text)) where
  -- After handleEnroll has answered a request with a token on a well-formed database, whatever
  -- calls of the handlers and of BackfillDNS the coordinator has served since, in any order and
  -- whichever calls of the database fail, every later call of handleEnroll with that token fails.
  pub enroll_once :
      (tok : Text) (body : Option EnrollRequest) (random_id random_secret : Option Text)
      (dns : Text) (now : ℕ) (before after : World)
      → is_sound cfg.reserved_ports before.db ≡ true
      → let first = handle_enroll env cfg tok body random_id random_secret dns now before in
        is_ok first.0 ≡ true
        → Reach env cfg split first.1 after
        → (body' : Option EnrollRequest) (random_id' random_secret' : Option Text) (dns' : Text)
          (later : ℕ)
        → is_ok (handle_enroll env cfg tok body' random_id' random_secret' dns' later after).0
          ≡ false
  unfolding holds
  enroll_once tok body id secret dns now before after s done k body' id' secret' dns' later =
      let h = env.sha256hex tok in
      let kept : holds (watching cfg (h ∷ [])) after.db ≡ true =
        Reach-holds env cfg split (h ∷ [])
          (ground (
            arith,
            (handle_enroll-Keeps env cfg (watching cfg []) tok body id secret dns now).at before
                (ground (arith, s)),
            (handle_enroll-Yields env cfg tok body id secret dns now).at before done,
          ))
          k in
      (handle_enroll-Fails env cfg tok body' id' secret' dns' later).at after (ground (arith, kept))

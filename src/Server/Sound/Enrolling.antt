-- ===== src/Server/Sound/Enrolling.antt =====
-- Well-formed databases and `handleEnroll` of internal/coordinator/node.go, which looks for a hub
-- before it adds one.
use home_kai.Base.{
  ℕ, Text, text_eq, Bool, true, false, not, ◌&&◌, Option, ◌≡◌, List, [], ◌∷◌, any, arith,
  Bool-cases, inl, inr,
}
use home_kai.Netip.{Addr, show_addr}
use home_kai.Ipam.{hub_ip}
use home_kai.Model.{Node, role_hub}
use home_kai.Netmap.{is_hub}
use home_kai.Store.Exec.{
  World, Db, Result, ok, err, Exec, pure, throw, ◌>>=◌, continue, recover, catch, Statement,
  attempt, sql,
}
use home_kai.Store.Keeps.{Keeps, Keeps-bind}
use home_kai.Store.Rows.{order_by, enroll_node}
use home_kai.Store.Rows.Ordering.{any-order_by}
use home_kai.Store.Calls.{nodes}
use home_kai.Server.{Env, Config, Handler, require, internal, allocate}
use home_kai.Server.Enroll.{
  token_error, EnrollRequest, role_of, overlay_ip_for, handle_enroll, enrolled_node,
}
use home_kai.Server.Sound.{Watch, holds}
use home_kai.Server.Sound.Actions.{Keeps-bind-require, or_fail-Keeps}
use home_kai.Server.Sound.Shared.{allocate-Keeps}
use home_kai.Server.Sound.Statements.{enroll_node-Sound}
use home_kai.Server.Sound.Sql.{statement_rules, token_error-Keeps}

-- From a database with `p`, `m` leads to one with `q`, whether it returns or fails.
record Leads {E A : Type 0} (p q : Db → Bool) (m : Exec E A) : Type 0 where
  at : (w : World) → p w.db ≡ true → q (m w).1.db ≡ true

module _ {E A B : Type 0} {p q : Db → Bool} where
  Leads-continue :
      (r : Result E A) (f : A → Exec E B)
      → ((a : A) → Leads p q (f a))
      → ((db : Db) → p db ≡ true → q db ≡ true)
      → Leads p q (continue r f)
  Leads-continue (ok a) f k le = k a
  Leads-continue (err e) f k le = record { at = λ w h. le w.db h }

  Leads-bind :
      (m : Exec E A) (f : A → Exec E B)
      → Keeps p m
      → ((db : Db) → p db ≡ true → q db ≡ true)
      → ((a : A) → Leads p q (f a))
      → Leads p q (m >>= f)
  unfolding ◌>>=◌
  Leads-bind m f km le kf = record {
    at = λ w h. let (r, w') = m w in (Leads-continue r f kf le).at w' (km.at w h);
  }

  Leads-then :
      (m : Exec E A) (f : A → Exec E B)
      → Leads p q m
      → ((a : A) → Keeps q (f a))
      → Leads p q (m >>= f)
  unfolding ◌>>=◌
  Leads-then m f km kf = record { at = λ w h. go ((m w).0) ((m w).1) (km.at w h) }
    where
      go : (r : Result E A) (v : World) → q v.db ≡ true → q (continue r f v).1.db ≡ true
      go (ok a) v h = (kf a).at v h
      go (err e) v h = h

Leads-sql :
    {A : Type 0} {p q : Db → Bool} (s : Statement A)
    → ((db : Db) → p db ≡ true → q (s db).1 ≡ true)
    → ((db : Db) → p db ≡ true → q db ≡ true)
    → Leads p q (sql s)
unfolding sql attempt
Leads-sql {p = p} {q = q} s k le = record { at = λ w h. go w h w.faults }
  where
    go : (w : World) → p w.db ≡ true → (faults : List Bool) → q (attempt faults s w).1.db ≡ true
    go w h [] = k w.db h
    go w h (true ∷ faults) = le w.db h
    go w h (false ∷ faults) = k w.db h

Leads-catch :
    {E F A : Type 0} {p q : Db → Bool} (m : Exec E A) (f : E → Exec F A)
    → Leads p q m
    → ((e : E) → Keeps q (f e))
    → Leads p q (catch m f)
unfolding catch
Leads-catch {E} {F} {A} {p} {q} m f km kf = record {
  at = λ w h. go ((m w).0) ((m w).1) (km.at w h);
}
  where
    go : (r : Result E A) (v : World) → q v.db ≡ true → q (recover f r v).1.db ≡ true
    go (ok a) v h = h
    go (err e) v h = (kf e).at v h

abbrev listed : Db → List Node
listed db = order_by (λ (n : Node). n.created_at) db.nodes

-- What follows a read of the nodes may use that they are those of the database.
Keeps-bind-nodes :
    {B : Type 0} {p : Db → Bool} (f : List Node → Handler B)
    → ((w : World) → p w.db ≡ true → p (f (listed w.db) w).1.db ≡ true)
    → Keeps p (internal nodes >>= f)
unfolding internal nodes catch sql attempt ◌>>=◌ throw
Keeps-bind-nodes {B} {p} f k = record { at = λ w h. go w h w.faults }
  where
    go :
        (w : World)
        → p w.db ≡ true
        → (faults : List Bool)
        → p ((internal nodes >>= f) (record w { faults = faults })).1.db ≡ true
    go w h [] = k (record w { faults = [] }) h
    go w h (true ∷ faults) = h
    go w h (false ∷ faults) = k (record w { faults = faults }) h

module _ (env : Env) (cfg : Config) (watch : Watch) where
  -- A well-formed database to which a node of the role can be added.
  abbrev admits : Text → Db → Bool
  admits role db = holds watch db && not (text_eq role role_hub && any is_hub db.nodes)

  admits-holds : (role : Text) (db : Db) → admits role db ≡ true → holds watch db ≡ true
  admits-holds role db h = ground (arith, h)

  overlay_ip_for-Leads :
      {B : Type 0} (role : Text) (f : Addr → Handler B)
      → ((a : Addr) → Leads (admits role) (holds watch) (f a))
      → (w : World) → holds watch w.db ≡ true
      → holds watch ((overlay_ip_for env cfg role (listed w.db) >>= f) w).1.db ≡ true
  unfolding overlay_ip_for require ◌>>=◌ pure throw
  overlay_ip_for-Leads role f k w h =
      let same = any-order_by (λ (n : Node). n.created_at) is_hub w.db.nodes in
      elim (Bool-cases (text_eq role role_hub)) [
        | inl e ↦ elim (Bool-cases (any is_hub (listed w.db))) [
          | inl hub ↦ rw (e, overlay_ip_for, hub) h
          | inr hub ↦
              rw (e, overlay_ip_for, hub)
                ((k (hub_ip cfg.overlay_cidr)).at w (ground (arith, h, hub, same)))
        ]
        | inr e ↦
            rw (e, overlay_ip_for)
              ((Leads-bind (allocate env cfg) f (allocate-Keeps env cfg) (admits-holds role) k).at w
                (ground (arith, h, e)))
      ]

  enroll_node-Leads :
      (h : Text) (now : ℕ) (n : Node)
      → Leads
          (admits n.role)
          (holds watch)
          (catch (sql (enroll_node h now n)) (token_error env cfg))
  enroll_node-Leads h now n =
      Leads-catch (sql (enroll_node h now n)) (token_error env cfg)
        (Leads-sql (enroll_node h now n)
          (λ db k. enroll_node-Sound watch h now n db (ground (arith, k)) (ground (arith, k)))
          (admits-holds n.role))
        (λ e. token_error-Keeps env cfg e)

  pub handle_enroll-Keeps :
      (tok : Text) (body : Option EnrollRequest) (random_id random_secret : Option Text)
      (dns : Text) (now : ℕ)
      → Keeps (holds watch) (handle_enroll env cfg tok body random_id random_secret dns now)
  unfolding handle_enroll
  handle_enroll-Keeps tok body random_id random_secret dns now = Keeps-bind-require _ _ _ (λ _.
      Keeps-bind _ _ (or_fail-Keeps body _) (λ req. Keeps-bind-require _ _ _ (λ _.
        Keeps-bind-require _ _ _ (λ _. Keeps-bind-require _ _ _ (λ _. Keeps-bind-nodes _ (
          overlay_ip_for-Leads (role_of req) _ (λ addr.
            Leads-bind _ _ (or_fail-Keeps random_id _) (admits-holds (role_of req)) (λ id.
              Leads-bind _ _ (or_fail-Keeps random_secret _) (admits-holds (role_of req)) (λ secret.
                Leads-then _ _
                  (enroll_node-Leads (env.sha256hex tok) now
                    (enrolled_node env cfg req id secret (show_addr env.ip6 addr) dns now))
                  (λ node. search statement_rules depth 20))))))))))

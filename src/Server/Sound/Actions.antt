-- ===== src/Server/Sound/Actions.antt =====
-- Well-formed databases and the actions that the handlers of internal/coordinator/server.go share.
use home_kai.Base.{Bool, true, false, Option, none, some, ◌≡◌, refl}
use home_kai.Store.Exec.{Db, StoreErr, not_found, unique, io, Exec, pure, throw, ◌>>=◌, sql}
use home_kai.Store.Keeps.{
  Keeps, Keeps-pure, Keeps-throw, Keeps-bind, Keeps-catch, Keeps-sql, keeps_rules,
}
use home_kai.Store.Calls.{reading}
use home_kai.Server.{Status, Handler, require, or_fail, internal, missing_or_internal}

module _ {p : Db → Bool} where
  pub require-Keeps : (b : Bool) (status : Status) → Keeps p (require b status)
  unfolding require
  require-Keeps true status = search keeps_rules
  require-Keeps false status = search keeps_rules

  pub or_fail-Keeps : {A : Type 0} (o : Option A) (status : Status) → Keeps p (or_fail o status)
  unfolding or_fail
  or_fail-Keeps none status = search keeps_rules
  or_fail-Keeps (some a) status = search keeps_rules

  pub internal-Keeps : {A : Type 0} (m : Exec StoreErr A) → Keeps p m → Keeps p (internal m)
  unfolding internal
  internal-Keeps m k = search (keeps_rules, k)

  -- The rest of a block may use what was required, and what was got.
  pub Keeps-bind-require :
      {B : Type 0} (b : Bool) (status : Status) (f : Unit {0} → Handler B)
      → (b ≡ true → Keeps p (f tt))
      → Keeps p (require b status >>= f)
  unfolding require ◌>>=◌ pure throw
  Keeps-bind-require true status f k = k refl
  Keeps-bind-require false status f k = record { at = λ w h. h }

  pub Keeps-bind-or_fail :
      {A B : Type 0} (o : Option A) (status : Status) (f : A → Handler B)
      → ((a : A) → o ≡ some a → Keeps p (f a))
      → Keeps p (or_fail o status >>= f)
  unfolding or_fail ◌>>=◌ pure throw
  Keeps-bind-or_fail none status f k = record { at = λ w h. h }
  Keeps-bind-or_fail (some a) status f k = k a refl

  pub Keeps-reading : {A : Type 0} (f : Db → A) → Keeps p (sql (reading f))
  Keeps-reading f = Keeps-sql (reading f) (λ db h. h)

  pub missing_or_internal-Keeps :
      {A : Type 0} (e : StoreErr) → Keeps {A = A} p (missing_or_internal e)
  missing_or_internal-Keeps not_found = search keeps_rules
  missing_or_internal-Keeps unique = search keeps_rules
  missing_or_internal-Keeps io = search keeps_rules

pub ruleset action_rules = (
  keeps_rules, require-Keeps, or_fail-Keeps, internal-Keeps, Keeps-reading,
  missing_or_internal-Keeps,
)

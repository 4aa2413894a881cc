-- ===== src/Store/Keeps.antt =====
-- What an action keeps of the database, one rule for each way to build an action.
use home_kai.Base.{Bool, true, false, ◌≡◌, List, [], ◌∷◌, if◌then◌else◌}
use home_kai.Store.Exec.{
  World, Db, Result, ok, err, Exec, pure, throw, ◌>>=◌, continue, recover, catch, Statement,
  attempt, sql,
}

-- `m` keeps `p`, whether it returns or fails, and whichever calls of the database fail.
pub record Keeps {E A : Type 0} (p : Db → Bool) (m : Exec E A) : Type 0 where
  pub at : (w : World) → p w.db ≡ true → p (m w).1.db ≡ true

module _ {E A : Type 0} {p : Db → Bool} where
  pub Keeps-pure : (a : A) → Keeps {E = E} p (pure a)
  unfolding pure
  Keeps-pure a = record { at = λ w h. h }

  pub Keeps-throw : (e : E) → Keeps {A = A} p (throw e)
  unfolding throw
  Keeps-throw e = record { at = λ w h. h }

  pub Keeps-if : (b : Bool) (m n : Exec E A) → Keeps p m → Keeps p n → Keeps p (if b then m else n)
  Keeps-if true m n km kn = km
  Keeps-if false m n km kn = kn

module _ {E A B : Type 0} {p : Db → Bool} where
  continue-Keeps :
      (r : Result E A) (f : A → Exec E B) → ((a : A) → Keeps p (f a)) → Keeps p (continue r f)
  continue-Keeps (ok a) f k = k a
  continue-Keeps (err e) f k = record { at = λ w h. h }

  pub Keeps-bind :
      (m : Exec E A) (f : A → Exec E B) → Keeps p m → ((a : A) → Keeps p (f a)) → Keeps p (m >>= f)
  unfolding ◌>>=◌
  Keeps-bind m f km kf = record {
    at = λ w h. let (r, w') = m w in (continue-Keeps r f kf).at w' (km.at w h);
  }

module _ {E F A : Type 0} {p : Db → Bool} where
  recover-Keeps :
      (f : E → Exec F A) (r : Result E A) → ((e : E) → Keeps p (f e)) → Keeps p (recover f r)
  recover-Keeps f (ok a) k = record { at = λ w h. h }
  recover-Keeps f (err e) k = k e

  pub Keeps-catch :
      (m : Exec E A) (f : E → Exec F A)
      → Keeps p m
      → ((e : E) → Keeps p (f e))
      → Keeps p (catch m f)
  unfolding catch
  Keeps-catch m f km kf = record {
    at = λ w h. let (r, w') = m w in (recover-Keeps f r kf).at w' (km.at w h);
  }

module _ {A : Type 0} {p : Db → Bool} where
  attempt-Keeps :
      (faults : List Bool) (s : Statement A) (w : World)
      → ((db : Db) → p db ≡ true → p (s db).1 ≡ true)
      → p w.db ≡ true
      → p (attempt faults s w).1.db ≡ true
  unfolding attempt
  attempt-Keeps [] s w k h = k w.db h
  attempt-Keeps (true ∷ faults) s w k h = h
  attempt-Keeps (false ∷ faults) s w k h = k w.db h

  pub Keeps-sql :
      (s : Statement A) → ((db : Db) → p db ≡ true → p (s db).1 ≡ true) → Keeps p (sql s)
  unfolding sql
  Keeps-sql s k = record { at = λ w. attempt-Keeps w.faults s w k }

pub ruleset keeps_rules = (Keeps-pure, Keeps-throw, Keeps-if, Keeps-bind, Keeps-catch)

-- ===== src/Store/Outcomes.antt =====
-- Whether an action fails, and what holds of the database that it leaves when it does not.
use home_kai.Base.{Bool, true, false, ◌≡◌, refl, arith}
use home_kai.Store.Exec.{World, Db, Result, ok, err, Exec, ◌>>=◌, continue}
use home_kai.Store.Keeps.{Keeps}

abbrev pub is_ok : {E A : Type 0} → Result E A → Bool
is_ok (ok a) = true
is_ok (err e) = false

-- From a database with `p` the action always fails.
pub record Fails {E A : Type 0} (p : Db → Bool) (m : Exec E A) : Type 0 where
  pub at : (w : World) → p w.db ≡ true → is_ok (m w).0 ≡ false

module _ {E A B : Type 0} {p : Db → Bool} where
  pub Fails-bind :
      (m : Exec E A) (f : A → Exec E B) → Keeps p m → ((a : A) → Fails p (f a)) → Fails p (m >>= f)
  unfolding ◌>>=◌
  Fails-bind m f km kf = record { at = λ w h. go (m w).0 (m w).1 (km.at w h) }
    where
      go : (r : Result E A) (v : World) → p v.db ≡ true → is_ok (continue r f v).0 ≡ false
      go (ok a) v h = (kf a).at v h
      go (err e) v h = refl

  pub Fails-first : (m : Exec E A) (f : A → Exec E B) → Fails p m → Fails p (m >>= f)
  unfolding ◌>>=◌
  Fails-first m f km = record { at = λ w h. go (m w).0 (m w).1 (km.at w h) }
    where
      go : (r : Result E A) (v : World) → is_ok r ≡ false → is_ok (continue r f v).0 ≡ false
      go (ok a) v h = absurd (ground (arith, h))
      go (err e) v h = refl

-- Where the action gives a result, `q` holds of the database that it leaves.
pub record Yields {E A : Type 0} (q : Db → Bool) (m : Exec E A) : Type 0 where
  pub at : (w : World) → is_ok (m w).0 ≡ true → q (m w).1.db ≡ true

module _ {E A B : Type 0} {q : Db → Bool} where
  pub Yields-bind :
      (m : Exec E A) (f : A → Exec E B) → ((a : A) → Yields q (f a)) → Yields q (m >>= f)
  unfolding ◌>>=◌
  Yields-bind m f kf = record { at = λ w h. go (m w).0 (m w).1 h }
    where
      go :
          (r : Result E A) (v : World)
          → is_ok (continue r f v).0 ≡ true
          → q (continue r f v).1.db ≡ true
      go (ok a) v h = (kf a).at v h
      go (err e) v h = absurd (ground (arith, h))

  pub Yields-first :
      (m : Exec E A) (f : A → Exec E B)
      → Yields q m
      → ((a : A) → Keeps q (f a))
      → Yields q (m >>= f)
  unfolding ◌>>=◌
  Yields-first m f km kf = record { at = λ w h. go (m w).0 (m w).1 (km.at w) h }
    where
      go :
          (r : Result E A) (v : World)
          → (is_ok r ≡ true → q v.db ≡ true)
          → is_ok (continue r f v).0 ≡ true
          → q (continue r f v).1.db ≡ true
      go (ok a) v k h = (kf a).at v (k refl)
      go (err e) v k h = absurd (ground (arith, h))

-- ===== src/Store/Exec.antt =====
-- The state of the coordinator, and calls that change it and may fail. What was written before a
-- failure stays written, so the state comes back beside the error too.
use home_kai.Base.{ℕ, Text, Bool, true, false, Option, List, [], ◌∷◌}
use home_kai.Model.{Node, StaticPeer, Endpoint, Policy, Publish, Event}

pub record EnrollToken : Type 0 where
  pub token_hash : Text
  pub name_hint : Text
  pub expires_at : ℕ
  pub used_at : Option ℕ

pub record Db : Type 0 where
  pub nodes : List Node
  pub tokens : List EnrollToken
  pub statics : List StaticPeer
  pub endpoints : List Endpoint
  pub publishes : List Publish
  pub policies : List Policy
  pub events : List Event
  pub last_event : ℕ  -- of AUTOINCREMENT
  pub netmap_version : ℕ
  pub lock_pubkey : Option Text
  pub lock_active : Option Text

-- `faults` says of the coming calls of the database which of them fail; `wakes` counts how often
-- the long polls were woken; `sessions` maps the hash of a session to its expiry.
pub record World : Type 0 where
  pub db : Db
  pub faults : List Bool
  pub wakes : ℕ
  pub sessions : List (Text × ℕ)

-- `unique` is a violated UNIQUE or PRIMARY KEY constraint, `io` any other error of the database.
pub data StoreErr : Type 0 where
  not_found unique io : StoreErr

pub data Result (E A : Type 0) : Type 0 where
  ok : A → Result E A
  err : E → Result E A

abbrev pub Exec : Type 0 → Type 0 → Type 0
Exec E A = World → Result E A × World

module _ {E A : Type 0} where
  unfoldable pub pure : A → Exec E A
  pure a w = (ok a, w)

  unfoldable pub throw : E → Exec E A
  throw e w = (err e, w)

module _ {E A B : Type 0} where
  abbrev pub continue : Result E A → (A → Exec E B) → Exec E B
  continue (ok a) f w = f a w
  continue (err e) f w = (err e, w)

  infixl 10 ◌>>=◌ ◌>>◌
  unfoldable pub ◌>>=◌ : Exec E A → (A → Exec E B) → Exec E B
  ◌>>=◌ m f w = let (r, w') = m w in continue r f w'

  abbrev pub ◌>>◌ : Exec E A → Exec E B → Exec E B
  m >> n = m >>= λ _. n

module _ {E F A : Type 0} where
  abbrev pub recover : (E → Exec F A) → Result E A → Exec F A
  recover f (ok a) w = (ok a, w)
  recover f (err e) w = f e w

  -- What a caller does with the error of a call.
  unfoldable pub catch : Exec E A → (E → Exec F A) → Exec F A
  catch m f w = let (r, w') = m w in recover f r w'

-- One statement, or one transaction: it fails as a whole, or gives a result and the new rows.
abbrev pub Statement : Type 0 → Type 0
Statement A = Db → Result StoreErr A × Db

abbrev run_statement : {A : Type 0} → Statement A → World → List Bool → Result StoreErr A × World
run_statement s w faults = let (r, db') = s w.db in (r, record w { db = db'; faults = faults })

unfoldable pub attempt : {A : Type 0} → List Bool → Statement A → Exec StoreErr A
attempt [] s w = run_statement s w []
attempt (true ∷ faults) s w = (err io, record w { faults = faults })
attempt (false ∷ faults) s w = run_statement s w faults

-- A call of the database.
unfoldable pub sql : {A : Type 0} → Statement A → Exec StoreErr A
unfolding attempt
sql s w = attempt w.faults s w

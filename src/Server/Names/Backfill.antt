-- ===== src/Server/Names/Backfill.antt =====
-- Every device has a name after `BackfillDNS` (internal/coordinator/server.go).
pub mod Named
use home_kai.Base.{
  ℕ, zero, suc, Text, text_eq, text_eq_refl, Bool, true, false, not, ◌&&◌, ◌||◌, Option, none, some,
  ◌≡◌, refl, sym, ap, ◌∙◌, List, [], ◌∷◌, ◌++◌, any, all, all_weaken, update_where, arith, is_empty,
  Bool-cases, inl, inr,
}
use home_kai.Model.{Node, StaticPeer}
use home_kai.Store.Exec.{
  World, Db, StoreErr, Result, ok, err, Exec, pure, catch, continue, recover, sql, attempt, ◌>>=◌,
}
use home_kai.Store.Rows.{order_by}
use home_kai.Store.Rows.Ordering.{any-order_by}
use home_kai.Store.Calls.{reading}
use home_kai.Server.{Handler, Status}
use home_kai.Server.Names.{
  Provider, with_letter, label_letter, random_label, ensure_dns, backfill_one, backfill_each,
  backfill_table,
}

-- No call of the provider fails, nor one for a random number.
pub record IsWorking {S : Type 0} (provider : Provider S) : Type 0 where
  pub draws : (s : S) → (n : ℕ) × ((provider.random 36 s).0 ≡ some n)
  pub accepts : (fqdn ip : Text) (s : S) → (provider.ensure_a fqdn ip s).0 ≡ true

nonempty_middle : (s : Text) (c : ℕ) (t : Text) → is_empty (s ++ c ∷ t) ≡ false
nonempty_middle [] c t = refl
nonempty_middle (d ∷ s) c t = refl

module _ {S : Type 0} (provider : Provider S) (works : IsWorking provider) where
  random_label-some :
      (left : ℕ) (s : S) → (label : Text) × ((random_label provider left s).0 ≡ some label)
  unfolding random_label
  random_label-some zero s = ([], refl)
  random_label-some (suc left) s =
      let (n, e) = works.draws s in
      let (label, d) = random_label-some left (provider.random 36 s).1 in
      (label_letter n ∷ label, rw (random_label, e, d) refl)

  ensure_dns-named :
      (domain ip : Text) (s : S)
      → is_empty domain ≡ false
      → is_empty (ensure_dns provider domain ip s).0 ≡ false
  unfolding ensure_dns
  ensure_dns-named domain ip s h =
      let (label, e) = random_label-some 16 s in
      let a = works.accepts (label ++ b'.' ∷ domain) ip (random_label provider 16 s).1 in
      rw (h, e, a) (nonempty_middle label b'.' domain)

-- One table of devices.
module _ {A : Type 0} (id name : A → Text) where
  abbrev pub is_named : A → Bool
  is_named a = not (is_empty (name a))

  -- A device that has a name, or is still to get one.
  abbrev pub covered : List A → A → Bool
  covered todo a = is_named a || any (λ b. text_eq (id b) (id a) && is_empty (name b)) todo

  covered-skip :
      (a : A) (todo xs : List A)
      → is_named a ≡ true
      → all (covered (a ∷ todo)) xs ≡ true
      → all (covered todo) xs ≡ true
  covered-skip a todo [] h k = refl
  covered-skip a todo (x ∷ xs) h k = ground (arith, covered-skip a todo xs h, k, h)

  covered_self : (xs : List A) → all (covered xs) xs ≡ true
  covered_self [] = refl
  covered_self (x ∷ xs) = ground (
    arith,
    text_eq_refl (id x),
    all_weaken (covered xs) (covered (x ∷ xs)) xs (λ y h. ground (arith, h)) (covered_self xs),
  )

  pub covered-all : (key : A → ℕ) (xs : List A) → all (covered (order_by key xs)) xs ≡ true
  covered-all key xs =
      all_weaken (covered xs) (covered (order_by key xs)) xs
        (λ a h.
          ground (arith, h, any-order_by key (λ b. text_eq (id b) (id a) && is_empty (name b)) xs))
        (covered_self xs)

  pub covered-done : (xs : List A) → all (covered []) xs ≡ true → all is_named xs ≡ true
  covered-done xs = all_weaken (covered []) is_named xs (λ a h. ground (arith, h))

  module _ (rename : Text → A → A) (named : (t : Text) (a : A) → name (rename t a) ≡ t) where
    covered-stored :
        (a : A) (t : Text) (todo xs : List A)
        → is_empty t ≡ false
        → all (covered (a ∷ todo)) xs ≡ true
        → all (covered todo) (update_where (λ b. text_eq (id a) (id b)) (rename t) xs) ≡ true
    covered-stored a t todo [] h k = refl
    covered-stored a t todo (x ∷ xs) h k =
        ground (arith, covered-stored a t todo xs h, k, h, named t x)

-- What storing a name does, while no call of the database fails: the rows with the id get it, and what
-- holds of the rest of the database still does.
pub record IsStore {A : Type 0} (id name : A → Text) (rows : Db → List A) (rest : Db → Bool)
    (set_name : A → Text → Exec StoreErr (Unit {0})) : Type 0 where
  pub rename : Text → A → A
  pub named : (t : Text) (a : A) → name (rename t a) ≡ t
  pub stores :
      (a : A) (t : Text) (w : World)
      → w.faults ≡ []
      → (rows (set_name a t w).1.db
          ≡ update_where (λ b. text_eq (id a) (id b)) (rename t) (rows w.db))
        × ((set_name a t w).1.faults ≡ [])
  pub keeps_rest :
      (a : A) (t : Text) (w : World) → rest w.db ≡ true → rest (set_name a t w).1.db ≡ true

module _ {S A : Type 0} (provider : Provider S) (works : IsWorking provider) (domain : Text)
    (nonempty : is_empty domain ≡ false) (id name ip : A → Text) (rows : Db → List A)
    (rest : Db → Bool) (set_name : A → Text → Exec StoreErr (Unit {0}))
    (store : IsStore id name rows rest set_name) where
  -- No call of the database fails, every row is covered, and the rest holds.
  abbrev pub Covers : List A → World → Type 0
  Covers todo w =
      (w.faults ≡ []) × (all (covered id name todo) (rows w.db) ≡ true) × (rest w.db ≡ true)

  -- The action returns, and the rows are covered after it.
  abbrev pub Returns : {B : Type 0} → List A → Result ℕ B × World → Type 0
  Returns {B} todo r = (b : B) × ((r.0 ≡ ok b) × Covers todo r.1)

  settled-Returns :
      (todo : List A) (r : Result StoreErr (Unit {0})) (v : World) (given kept : S × Bool)
      → Covers todo v
      → Returns todo (
          let (q, v') = continue r (λ _. pure {E = StoreErr} given) v in
          recover {F = Status} (λ _. pure kept) q v')
  unfolding pure
  settled-Returns todo (ok a) v given kept c = (given, (refl, c))
  settled-Returns todo (err e) v given kept c = (kept, (refl, c))

  backfill_one-Returns :
      (a : A) (todo : List A) (state : S × Bool) (w : World)
      → Covers (a ∷ todo) w
      → Returns todo (backfill_one provider domain name ip set_name a state w)
  unfolding backfill_one catch ◌>>=◌ pure
  backfill_one-Returns a todo (s, changed) w (calm, cov, held) =
      elim (Bool-cases (is_empty (name a))) [
        | inl e ↦
            let t = (ensure_dns provider domain (ip a) s).0 in
            let t_named = ensure_dns-named provider works domain (ip a) s nonempty in
            let (table, calm') = store.stores a t w calm in
            rw (backfill_one, e, t_named)
              (settled-Returns todo (set_name a t w).0 (set_name a t w).1 _ _ (
                calm',
                rw table (
                    covered-stored id name store.rename store.named a t todo (rows w.db) t_named
                      cov),
                store.keeps_rest a t w held,
              ))
        | inr e ↦
            rw (backfill_one, e)
              (
                (s, changed),
                (
                  refl,
                  (calm, covered-skip id name a todo (rows w.db) (ground (arith, e)) cov, held),
                ),
              )
      ]

  backfill_each-Returns :
      (todo : List A) (state : S × Bool) (w : World)
      → Covers todo w
      → Returns [] (backfill_each provider domain name ip set_name todo state w)
  unfolding backfill_each pure ◌>>=◌
  backfill_each-Returns [] state w c = (state, (refl, c))
  backfill_each-Returns (a ∷ todo) state w c =
      let (state', (e, c')) = backfill_one-Returns a todo state w c in
      rw (backfill_each, e)
        (backfill_each-Returns todo state'
          (backfill_one provider domain name ip set_name a state w).1 c')

  pub backfill_table-Returns :
      (key : A → ℕ) (state : S × Bool) (w : World)
      → w.faults ≡ []
      → rest w.db ≡ true
      → Returns [] (
          backfill_table provider domain name ip set_name
            (sql (reading (λ db. order_by key (rows db))))
            state
            w)
  unfolding backfill_table catch ◌>>=◌ sql attempt
  backfill_table-Returns key state w calm held =
      rw (backfill_table, calm)
        (backfill_each-Returns (order_by key (rows w.db)) state (record w { faults = [] })
          (refl, covered-all id name key (rows w.db), held))

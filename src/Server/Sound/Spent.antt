-- ===== src/Server/Sound/Spent.antt =====
-- Spent enroll tokens of internal/coordinator/store/store.go.
use home_kai.Base.{
  ℕ, Text, text_eq, text_eq_iff, Bool, true, false, not, ◌||◌, none, some, ◌≡◌, refl, ap, List, [],
  ◌∷◌, ◌++◌, any, any-append, all, all-append, find, update_where, arith, Option-cases, Bool-cases,
  inl, inr,
}
use home_kai.Model.{Node}
use home_kai.Store.Exec.{EnrollToken, Db, not_found, err}
use home_kai.Store.Rows.{is_valid_token, enroll_node}
use home_kai.Store.Outcomes.{is_ok}
use home_kai.Server.Sound.{is_spent, is_used}

abbrev spend : ℕ → EnrollToken → EnrollToken
spend now u = record u { used_at = some now }

abbrev with_hash : Text → EnrollToken → Bool
with_hash h t = text_eq h t.token_hash

any-with_hash :
    (h g : Text) (now : ℕ) (ts : List EnrollToken)
    → any (with_hash h) (update_where (with_hash g) (spend now) ts) ≡ any (with_hash h) ts
any-with_hash h g now [] = refl
any-with_hash h g now (t ∷ ts) = ground (arith, any-with_hash h g now ts)

abbrev used_if : Text → EnrollToken → Bool
used_if h t = not (text_eq h t.token_hash) || is_used t.used_at

used_after :
    (h g : Text) (now : ℕ) (ts : List EnrollToken)
    → all (used_if h) ts ≡ true
    → all (used_if h) (update_where (with_hash g) (spend now) ts) ≡ true
used_after h g now [] k = refl
used_after h g now (t ∷ ts) k = ground (arith, used_after h g now ts, k)

used_now :
    (h : Text) (now : ℕ) (ts : List EnrollToken)
    → all (used_if h) (update_where (with_hash h) (spend now) ts) ≡ true
used_now h now [] = refl
used_now h now (t ∷ ts) = ground (arith, used_now h now ts)

pub enroll-is_spent :
    (h g : Text) (now : ℕ) (n : Node) (db : Db)
    → is_spent h db.tokens ≡ true
    → is_spent h (enroll_node g now n db).1.tokens ≡ true
unfolding enroll_node
enroll-is_spent h g now n db k = elim (Option-cases (find (is_valid_token g now) db.tokens)) [
  | inl e ↦ ground (arith, e, k)
  | inr (t, e) ↦ ground (arith, e, k, any-with_hash h g now db.tokens, used_after h g now db.tokens)
]

find-with_hash :
    (h : Text) (now : ℕ) (ts : List EnrollToken) (t : EnrollToken)
    → find (is_valid_token h now) ts ≡ some t
    → any (with_hash h) ts ≡ true
find-with_hash h now [] t e = absurd (ground (arith, e))
find-with_hash h now (u ∷ ts) t e = ground (arith, e, find-with_hash h now ts t)

-- What an enrollment that succeeds leaves of its token.
pub enroll_spends :
    (h : Text) (now : ℕ) (n : Node) (db : Db)
    → is_ok (enroll_node h now n db).0 ≡ true
    → is_spent h (enroll_node h now n db).1.tokens ≡ true
unfolding enroll_node
enroll_spends h now n db k = elim (Option-cases (find (is_valid_token h now) db.tokens)) [
  | inl e ↦ absurd (ground (arith, e, k))
  | inr (t, e) ↦ ground (
    arith,
    e,
    k,
    find-with_hash h now db.tokens t e,
    any-with_hash h h now db.tokens,
    used_now h now db.tokens,
  )
]

no_valid :
    (h : Text) (later : ℕ) (ts : List EnrollToken)
    → all (used_if h) ts ≡ true
    → find (is_valid_token h later) ts ≡ none
no_valid h later [] k = refl
no_valid h later (t ∷ ts) k = elim (Option-cases t.used_at) [
  | inl e ↦ ground (arith, e, k, no_valid h later ts)
  | inr (u, e) ↦ ground (arith, e, k, no_valid h later ts)
]

-- A spent token is refused.
pub spent_refused :
    (h : Text) (later : ℕ) (m : Node) (db : Db)
    → is_spent h db.tokens ≡ true
    → (enroll_node h later m db).0 ≡ err not_found
unfolding enroll_node
spent_refused h later m db k = ground (arith, k, no_valid h later db.tokens)

-- A new token with another hash.
pub append-is_spent :
    (h : Text) (ts : List EnrollToken) (t : EnrollToken)
    → any (with_hash t.token_hash) ts ≡ false
    → is_spent h ts ≡ true
    → is_spent h (ts ++ t ∷ []) ≡ true
append-is_spent h ts t fresh k = elim (Bool-cases (text_eq h t.token_hash)) [
  | inl e ↦
      let same = (text_eq_iff h t.token_hash).0 e in
      absurd (ground (arith, ap (λ x. any (with_hash x) ts) same, fresh, k))
  | inr e ↦
      ground (arith, e, k, any-append (with_hash h) ts (t ∷ []), all-append (used_if h) ts (t ∷ []))
]

-- ===== src/Store/Rows/Ordering.antt =====
-- ORDER BY of the queries in internal/coordinator/store/store.go.
use home_kai.Base.{ℕ, Bool, ◌≡◌, refl, List, [], ◌∷◌, ◌||◌, any, arith, ◌∙◌, ap}
use home_kai.Store.Rows.{insert_by, order_by}

module _ {A : Type 0} (key : A → ℕ) (p : A → Bool) where
  any-insert_by : (x : A) (ys : List A) → any p (insert_by key x ys) ≡ (p x || any p ys)
  unfolding insert_by
  any-insert_by x [] = refl
  any-insert_by x (y ∷ ys) = ground (arith, any-insert_by x ys)

  -- The rows are the same in any order.
  pub any-order_by : (xs : List A) → any p (order_by key xs) ≡ any p xs
  unfolding order_by
  any-order_by [] = refl
  any-order_by (x ∷ xs) = any-insert_by x (order_by key xs) ∙ ap (λ b. p x || b) (any-order_by xs)

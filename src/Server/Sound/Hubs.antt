-- ===== src/Server/Sound/Hubs.antt =====
-- The hubs among the nodes of internal/coordinator/store/store.go.
use home_kai.Base.{
  ℕ, Text, Bool, true, not, ◌&&◌, ◌≡◌, refl, ap, sym, ◌∙◌, List, [], ◌∷◌, ◌++◌, any, any-append,
  find, keep, update_where, map, arith, Option-cases, inl, inr,
}
use home_kai.Model.{Node}
use home_kai.Netmap.{is_hub}
use home_kai.Store.Exec.{Db}
use home_kai.Store.Rows.{new_row, is_valid_token, hinted, enroll_node}
use home_kai.Server.Sound.{one_hub}
use home_kai.Server.Sound.Rows.{update_all, any-keep_le}

module _ (f : Node → Node) (k : (n : Node) → (f n).role ≡ n.role) where
  is_hub_changed : (n : Node) → is_hub (f n) ≡ is_hub n
  is_hub_changed n = rw (k n) refl

  any-is_hub-update :
      (p : Node → Bool) (ns : List Node) → any is_hub (update_where p f ns) ≡ any is_hub ns
  any-is_hub-update p [] = refl
  any-is_hub-update p (x ∷ ns) = ground (arith, any-is_hub-update p ns, is_hub_changed x)

  pub one_hub-update :
      (p : Node → Bool) (ns : List Node) → one_hub (update_where p f ns) ≡ one_hub ns
  one_hub-update p [] = refl
  one_hub-update p (x ∷ ns) =
      ground (arith, one_hub-update p ns, any-is_hub-update p ns, is_hub_changed x)

  pub one_hub-map : (ns : List Node) → one_hub (map f ns) ≡ one_hub ns
  one_hub-map ns = ap one_hub (sym (update_all f ns)) ∙ one_hub-update (λ n. true) ns

pub one_hub-keep :
    (q : Node → Bool) (ns : List Node) → one_hub ns ≡ true → one_hub (keep q ns) ≡ true
one_hub-keep q [] h = refl
one_hub-keep q (x ∷ ns) h = ground (arith, h, one_hub-keep q ns, any-keep_le is_hub q ns)

one_hub-append :
    (n : Node) (ns : List Node)
    → not (is_hub n && any is_hub ns) ≡ true
    → one_hub ns ≡ true
    → one_hub (ns ++ new_row n ∷ []) ≡ true
one_hub-append n [] h k = ground (arith, h)
one_hub-append n (x ∷ ns) h k =
    ground (arith, any-append is_hub ns (new_row n ∷ []), one_hub-append n ns)

-- A hub is added where there is none.
pub enroll-one_hub :
    (h : Text) (now : ℕ) (n : Node) (db : Db)
    → not (is_hub n && any is_hub db.nodes) ≡ true
    → one_hub db.nodes ≡ true
    → one_hub (enroll_node h now n db).1.nodes ≡ true
unfolding enroll_node
enroll-one_hub h now n db fits k = elim (Option-cases (find (is_valid_token h now) db.tokens)) [
  | inl e ↦ ground (arith, e)
  | inr (t, e) ↦ ground (arith, e, fits, one_hub-append (hinted t.name_hint n) db.nodes)
]

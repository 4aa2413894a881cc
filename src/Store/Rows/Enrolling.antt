-- ===== src/Store/Rows/Enrolling.antt =====
-- `EnrollNode` of internal/coordinator/store/store.go as a transaction.
use home_kai.Base.{
  ℕ, Text, text_eq_comm, Bool, true, false, not, ◌&&◌, ◌≡◌, refl, List, [], ◌∷◌, ◌++◌, any, find,
  any-append, arith, Option-cases, inl, inr,
}
use home_kai.Model.{Node}
use home_kai.Store.Outcomes.{is_ok}
use home_kai.Store.Exec.{Db}
use home_kai.Store.Rows.{clashes, new_row, is_valid_token, hinted, enroll_node}

-- An enrollment that fails changes nothing: the token stays as it was.
pub enroll_atomic :
    (h : Text) (now : ℕ) (n : Node) (db : Db)
    → is_ok (enroll_node h now n db).0 ≡ false
    → (enroll_node h now n db).1 ≡ db
unfolding enroll_node
enroll_atomic h now n db k = ground arith

-- No two rows share an id, a WireGuard key or an overlay address.
abbrev pub are_apart : List Node → Bool
are_apart [] = true
are_apart (n ∷ ns) = let rest = are_apart ns in not (any (clashes n) ns) && rest

clashes-new_row : (n x : Node) → (clashes x (new_row n) ≡ clashes n x)
clashes-new_row n x = ground (
  arith,
  text_eq_comm n.id x.id,
  text_eq_comm n.wg_pub_key x.wg_pub_key,
  text_eq_comm n.overlay_ip x.overlay_ip,
)

are_apart-append :
    (n : Node) (ns : List Node)
    → any (clashes n) ns ≡ false
    → are_apart ns ≡ true
    → are_apart (ns ++ new_row n ∷ []) ≡ true
are_apart-append n [] h k = refl
are_apart-append n (x ∷ ns) h k =
    ground (
      arith,
      any-append (clashes x) ns (new_row n ∷ []),
      clashes-new_row n x,
      are_apart-append n ns,
    )

-- Enrollment keeps the ids, keys and addresses of the nodes apart, whether it succeeds or not.
pub enroll-are_apart :
    (h : Text) (now : ℕ) (n : Node) (db : Db)
    → are_apart db.nodes ≡ true
    → are_apart (enroll_node h now n db).1.nodes ≡ true
unfolding enroll_node
enroll-are_apart h now n db k = elim (Option-cases (find (is_valid_token h now) db.tokens)) [
  | inl e ↦ ground (arith, e)
  | inr (t, e) ↦ ground (arith, e, are_apart-append (hinted t.name_hint n) db.nodes)
]

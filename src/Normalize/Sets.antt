-- ===== src/Normalize/Sets.antt =====
-- Collecting texts with a `seen` map, for the normalisers.
use home_kai.Base.{
  Text, text_eq, text_eq_iff, elem, is_nodup, is_nodup-append_new, true, ◌||◌, ◌≡◌, List, [], ◌∷◌,
  any-append, arith,
}
use home_kai.Normalize.{add_new}

pub elem-add_new :
    (x y : Text) (out : List Text) → elem x (add_new y out) ≡ (elem x out || text_eq x y)
unfolding add_new
elem-add_new x y out = ground (arith, any-append (text_eq x) out (y ∷ []), text_eq_iff x y)

pub add_new-is_nodup :
    (y : Text) (out : List Text) → is_nodup out ≡ true → is_nodup (add_new y out) ≡ true
unfolding add_new
add_new-is_nodup y out h = ground (arith, is_nodup-append_new y out)

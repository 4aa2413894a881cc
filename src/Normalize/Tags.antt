-- ===== src/Normalize/Tags.antt =====
-- The result of `normalizeTags` of internal/coordinator/acl.go.
use home_kai.Base.{
  Text, text_eq, elem, is_nodup, is_nodup_nil, is_sorted, any-sort_texts, sort_texts-is_sorted,
  sort_texts-is_nodup, true, not, ◌&&◌, ◌||◌, ◌≡◌, ◌∙◌, List, [], ◌∷◌, any, is_empty, arith,
  ||_assoc,
}
use home_kai.Text.{slug}
use home_kai.Normalize.{add_tag, add_tags, normalize_tags}
use home_kai.Normalize.Sets.{elem-add_new, add_new-is_nodup}

elem-add_tag :
    (x t : Text) (out : List Text)
    → elem x (add_tag t out) ≡ (elem x out || (not (is_empty (slug t)) && text_eq x (slug t)))
unfolding add_tag
elem-add_tag x t out = ground (arith, elem-add_new x (slug t) out)

elem-add_tags :
    (x : Text) (ts out : List Text)
    → elem x (add_tags ts out)
      ≡ (elem x out || any (λ t. not (is_empty (slug t)) && text_eq x (slug t)) ts)
unfolding add_tags
elem-add_tags x [] out = ground arith
elem-add_tags x (t ∷ ts) out =
    rw (elem-add_tags x ts (add_tag t out), elem-add_tag x t out)
      (||_assoc (elem x out) (not (is_empty (slug t)) && text_eq x (slug t))
        (any (λ u. not (is_empty (slug u)) && text_eq x (slug u)) ts))

add_tags-is_nodup : (ts out : List Text) → is_nodup out ≡ true → is_nodup (add_tags ts out) ≡ true
unfolding add_tags add_tag
add_tags-is_nodup [] out h = h
add_tags-is_nodup (t ∷ ts) out h =
    add_tags-is_nodup ts (add_tag t out) (ground (arith, add_new-is_nodup (slug t) out))

-- The result of normalizeTags is sorted, has no tag twice, and has exactly the nonempty slugs of
-- the given tags.
pub normalize_tags_lem :
    (tags : List Text)
    → (is_sorted (normalize_tags tags) ≡ true)
      × (is_nodup (normalize_tags tags) ≡ true)
      × ((x : Text)
          → elem x (normalize_tags tags)
            ≡ any (λ t. not (is_empty (slug t)) && text_eq x (slug t)) tags)
unfolding normalize_tags
normalize_tags_lem tags = (
  sort_texts-is_sorted (add_tags tags []),
  sort_texts-is_nodup (add_tags tags []) (add_tags-is_nodup tags [] is_nodup_nil),
  λ x. any-sort_texts (text_eq x) (add_tags tags []) ∙ elem-add_tags x tags [],
)

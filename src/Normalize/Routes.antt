-- ===== src/Normalize/Routes.antt =====
-- The result of `normalizeRoutes` of internal/coordinator/routes.go.
use home_kai.Base.{
  Text, text_eq, elem, is_nodup, is_nodup_nil, is_sorted, sort_texts, any-sort_texts,
  sort_texts-is_sorted, sort_texts-is_nodup, Bool, true, false, ◌||◌, Option, none, some, ◌≡◌, refl,
  ◌∙◌, List, [], ◌∷◌, any, all, arith, Option-cases, inl, inr,
}
use home_kai.Netip.{Prefix, Ip6Text}
use home_kai.Normalize.{add_new, canonical_route, add_routes, normalize_routes, map_option}
use home_kai.Normalize.Sets.{elem-add_new, add_new-is_nodup}

abbrev pub is_some : Option Text → Bool
is_some none = false
is_some (some x) = true

abbrev pub is_value : Text → Option Text → Bool
is_value x none = false
is_value x (some y) = text_eq x y

module _ (ip6 : Ip6Text) (overlay : Prefix) where
  abbrev pub IsCollected : List Text → List Text → Option (List Text) → Type 0
  IsCollected rs out none = all (λ r. is_some (canonical_route ip6 overlay r)) rs ≡ false
  IsCollected rs out (some got) =
      (all (λ r. is_some (canonical_route ip6 overlay r)) rs ≡ true)
      × (is_nodup got ≡ true)
      × ((x : Text)
          → elem x got ≡ (elem x out || any (λ r. is_value x (canonical_route ip6 overlay r)) rs))

  -- A refused route refuses the whole list.
  collect_none :
      (r : Text) (rs out : List Text)
      → canonical_route ip6 overlay r ≡ none
      → IsCollected (r ∷ rs) out none
  collect_none r rs out e = rw e

  collect_some :
      (r c : Text) (rs out : List Text) (result : Option (List Text))
      → canonical_route ip6 overlay r ≡ some c
      → IsCollected rs (add_new c out) result
      → IsCollected (r ∷ rs) out result
  collect_some r c rs out none e h = rw e h
  collect_some r c rs out (some got) e h =
      (rw e h.0, h.1, λ x. rw e (h.2 x ∙ ground (arith, elem-add_new x c out)))

  add_routes-IsCollected :
      (rs out : List Text)
      → is_nodup out ≡ true
      → IsCollected rs out (add_routes ip6 overlay rs out)
  unfolding add_routes
  add_routes-IsCollected [] out h = (refl, h, λ x. ground arith)
  add_routes-IsCollected (r ∷ rs) out h = elim (Option-cases (canonical_route ip6 overlay r)) [
    | inl e ↦ rw (e, add_routes) (collect_none r rs out e)
    | inr (c, e) ↦
        rw (e, add_routes)
          (collect_some r c rs out (add_routes ip6 overlay rs (add_new c out)) e
            (add_routes-IsCollected rs (add_new c out) (add_new-is_nodup c out h)))
  ]

  -- What `normalizeRoutes` promises of its result.
  abbrev pub IsNormalized : List Text → Option (List Text) → Type 0
  IsNormalized routes none = all (λ r. is_some (canonical_route ip6 overlay r)) routes ≡ false
  IsNormalized routes (some out) =
      (all (λ r. is_some (canonical_route ip6 overlay r)) routes ≡ true)
      × (is_sorted out ≡ true)
      × (is_nodup out ≡ true)
      × ((x : Text) → elem x out ≡ any (λ r. is_value x (canonical_route ip6 overlay r)) routes)

  sorted_collection :
      (rs : List Text) (result : Option (List Text))
      → IsCollected rs [] result
      → IsNormalized rs (map_option sort_texts result)
  sorted_collection rs none h = h
  sorted_collection rs (some got) h = (
    h.0,
    sort_texts-is_sorted got,
    sort_texts-is_nodup got h.1,
    λ x. any-sort_texts (text_eq x) got ∙ h.2 x,
  )

  -- normalizeRoutes refuses exactly when one of the routes is not an IPv4 prefix of at least one
  -- bit outside the overlay; otherwise its result is sorted, has no route twice, and has exactly
  -- the canonical forms of the given routes.
  pub normalize_routes-IsNormalized :
      (routes : List Text) → IsNormalized routes (normalize_routes ip6 overlay routes)
  unfolding normalize_routes
  normalize_routes-IsNormalized routes =
      sorted_collection routes (add_routes ip6 overlay routes [])
        (add_routes-IsCollected routes [] is_nodup_nil)

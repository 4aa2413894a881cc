-- ===== src/Agent/Wgdev/Linux/Kept.antt =====
-- The routes in the kernel under SyncRoutes of internal/agent/wgdev/wgdev_linux.go, on a kernel that
-- does what the documentation of netlink says.
use home_kai.Base.{
  ℕ, Text, text_eq, text_eq_iff, Bool, true, false, not, ◌&&◌, none, some, ◌≡◌, refl, sym, ap, ◌∙◌,
  List, [], ◌∷◌, any, keep, ◌==◌, arith, if◌then◌else◌, Bool-cases, Option-cases, inl, inr,
}
use home_kai.Netip.{Prefix, Ip6Text, masked, show_prefix}
use home_kai.Netip.Parse.{parse_prefix}
use home_kai.Agent.Wgdev.Routes.Synced.{Lawful, is_done}
use home_kai.Agent.Wgdev.Linux.{Netlink, route_conflict, add_route, route_ops}

-- The text of a destination.
abbrev pub dst_text : Ip6Text → Prefix → Text
dst_text ip6 p = show_prefix ip6 (masked p)

-- `view k t` lists the links of the routes to a destination. A call that fails changes nothing, and
-- replacing a route leaves the other destinations alone.
pub record DocumentedRoutes (nl : Netlink) (ip6 : Ip6Text) : Type 0 where
  pub view : nl.Kernel → Text → List ℕ
  pub lists :
      (p : Prefix) (k : nl.Kernel) (links : List ℕ)
      → nl.route_list p k ≡ some links
      → view k (dst_text ip6 p) ≡ links
  pub dels :
      (i : ℕ) (p : Prefix) (k : nl.Kernel) (t : Text)
      → view (nl.route_del i (some p) k).1 t ≡ (
          if (nl.route_del i (some p) k).0 && text_eq (dst_text ip6 p) t
          then keep (λ l. not (l == i)) (view k t)
          else view k t)
  pub replaces :
      (i : ℕ) (p : Prefix) (k : nl.Kernel)
      → (nl.route_replace i p k).0 ≡ true
      → any (λ l. l == i) (view (nl.route_replace i p k).1 (dst_text ip6 p)) ≡ true
  pub replaces_own :
      (i : ℕ) (p : Prefix) (k : nl.Kernel)
      → any (λ l. not (l == i)) (view k (dst_text ip6 p)) ≡ false
      → any (λ l. not (l == i)) (view (nl.route_replace i p k).1 (dst_text ip6 p)) ≡ false
  pub replace_keeps :
      (i : ℕ) (p : Prefix) (k : nl.Kernel) (t : Text)
      → ((nl.route_replace i p k).0 && text_eq (dst_text ip6 p) t) ≡ false
      → view (nl.route_replace i p k).1 t ≡ view k t

-- A text that is read as the destination with that text.
abbrev pub reads_back : Ip6Text → Text → Bool
reads_back ip6 s = elim (parse_prefix ip6 s) [ none ↦ false | some p ↦ text_eq (dst_text ip6 p) s ]

any-keep-not : (i : ℕ) (xs : List ℕ) → any (λ l. l == i) (keep (λ l. not (l == i)) xs) ≡ false
any-keep-not i [] = refl
any-keep-not i (x ∷ xs) = ground (arith, any-keep-not i xs)

keep_twice :
    (i : ℕ) (xs : List ℕ)
    → keep (λ l. not (l == i)) (keep (λ l. not (l == i)) xs) ≡ keep (λ l. not (l == i)) xs
keep_twice i [] = refl
keep_twice i (x ∷ xs) = ground (arith, keep_twice i xs)

keep_none :
    (i : ℕ) (xs : List ℕ) → any (λ l. not (l == i)) xs ≡ false → keep (λ l. not (l == i)) xs ≡ []
keep_none i [] h = refl
keep_none i (x ∷ xs) h = ground (arith, h, keep_none i xs)

module _ {nl : Netlink} {ip6 : Ip6Text} (d : DocumentedRoutes nl ip6) (i : ℕ) where
  open d use {view}

  abbrev pub owns : nl.Kernel → Text → Bool
  owns k t = any (λ l. l == i) (view k t)

  del_lem :
      (s t : Text) (k : nl.Kernel)
      → reads_back ip6 s ≡ true
      → view (nl.route_del i (parse_prefix ip6 s) k).1 t ≡ (
          if (nl.route_del i (parse_prefix ip6 s) k).0 && text_eq s t
          then keep (λ l. not (l == i)) (view k t)
          else view k t)
  del_lem s t k h = elim (Option-cases (parse_prefix ip6 s)) [
    | inl e ↦ ground (arith, e, h)
    | inr (p, e) ↦ ground (arith, e, h, d.dels i p k t, text_eq_iff (dst_text ip6 p) s)
  ]

  pub deletes :
      (s t : Text) (k : nl.Kernel)
      → reads_back ip6 s ≡ true
      → owns (nl.route_del i (parse_prefix ip6 s) k).1 t
        ≡ (if (nl.route_del i (parse_prefix ip6 s) k).0 && text_eq s t then false else owns k t)
  deletes s t k h = ground (arith, del_lem s t k h, any-keep-not i (view k t))

  pub adds :
      (s t : Text) (k : nl.Kernel)
      → reads_back ip6 s ≡ true
      → owns (add_route nl ip6 i s k).1 t
        ≡ (if is_done (add_route nl ip6 i s k).0 && text_eq s t then true else owns k t)
  unfolding add_route
  adds s t k h = elim (Option-cases (parse_prefix ip6 s)) [
    | inl e ↦ ground (arith, e, h)
    | inr (p, e) ↦ ground (
      arith,
      e,
      h,
      d.replaces i p k,
      d.replace_keeps i p k t,
      text_eq_iff (dst_text ip6 p) s,
      text_eq_iff s t,
    )
  ]

  abbrev pub linux_laws : Lawful (route_ops nl ip6 i)
  linux_laws = record { owns = owns; reads = reads_back ip6; deletes = deletes; adds = adds }

  abbrev pub others : Text → nl.Kernel → List ℕ
  others t k = keep (λ l. not (l == i)) (view k t)

  pub del_others :
      (t s : Text) (k : nl.Kernel)
      → reads_back ip6 s ≡ true
      → others t (nl.route_del i (parse_prefix ip6 s) k).1 ≡ others t k
  del_others t s k h = ground (arith, del_lem s t k h, keep_twice i (view k t))

  replace_others :
      (t : Text) (p : Prefix) (k : nl.Kernel)
      → any (λ l. not (l == i)) (view k (dst_text ip6 p)) ≡ false
      → others t (nl.route_replace i p k).1 ≡ others t k
  replace_others t p k h =
      let k' = (nl.route_replace i p k).1 in
      elim (Bool-cases (text_eq (dst_text ip6 p) t)) [
        | inl e ↦
            let same : dst_text ip6 p ≡ t = (text_eq_iff (dst_text ip6 p) t).0 e in
            rw (← same) (
              keep_none i (view k' (dst_text ip6 p)) (d.replaces_own i p k h)
              ∙ sym (keep_none i (view k (dst_text ip6 p)) h))
        | inr e ↦ ap (keep (λ l. not (l == i))) (d.replace_keeps i p k t (ground (arith, e)))
      ]

  pub add_others :
      (t s : Text) (k : nl.Kernel)
      → ((p : Prefix) (j : nl.Kernel) → (links : List ℕ) × (nl.route_list p j ≡ some links))
      → others t (add_route nl ip6 i s k).1 ≡ others t k
  unfolding add_route route_conflict
  add_others t s k a = elim (Option-cases (parse_prefix ip6 s)) [
    | inl e ↦ rw (e, add_route) refl
    | inr (p, e) ↦
        let (links, l) = a p k in
        elim (Bool-cases (any (λ l. not (l == i)) links)) [
          | inl c ↦ rw (e, add_route) (rw (l, route_conflict) (rw c refl))
          | inr c ↦
              rw (e, add_route)
                (rw (l, route_conflict) (rw c (replace_others t p k (rw (d.lists p k links l) c))))
        ]
  ]

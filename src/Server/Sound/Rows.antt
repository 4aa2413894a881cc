-- ===== src/Server/Sound/Rows.antt =====
-- Well-formed databases and the statements on nodes of internal/coordinator/store/store.go.
use home_kai.Base.{
  text_eq_comm, Bool, true, false, ◌≡◌, refl, sym, ap, ◌∙◌, List, [], ◌∷◌, ◌++◌, any, any-append,
  all, keep, update_where, map, arith,
}
use home_kai.Model.{Node, StaticPeer, Publish}
use home_kai.Store.Rows.{clashes, static_clashes}
use home_kai.Store.Rows.Enrolling.{are_apart}
use home_kai.Server.Sound.{statics_apart, publish_clashes, publishes_apart}

-- Changes of a row that leave what is unique alone.
abbrev pub KeepsNode : (Node → Node) → Type 0
KeepsNode f =
    (n : Node)
    → ((f n).id ≡ n.id)
      × ((f n).wg_pub_key ≡ n.wg_pub_key)
      × ((f n).overlay_ip ≡ n.overlay_ip)
      × ((f n).role ≡ n.role)

abbrev pub KeepsStatic : (StaticPeer → StaticPeer) → Type 0
KeepsStatic f =
    (p : StaticPeer)
    → ((f p).id ≡ p.id)
      × ((f p).name ≡ p.name)
      × ((f p).wg_pub_key ≡ p.wg_pub_key)
      × ((f p).overlay_ip ≡ p.overlay_ip)

module _ (f : Node → Node) (k : KeepsNode f) where
  clashes_changed : (n x : Node) → (clashes n (f x) ≡ clashes n x) × (clashes (f n) x ≡ clashes n x)
  clashes_changed n x =
      let (id_x, key_x, ip_x, _) = k x in
      let (id_n, key_n, ip_n, _) = k n in (rw (id_x, key_x, ip_x) refl, rw (id_n, key_n, ip_n) refl)

  any-clashes-update :
      (p : Node → Bool) (n : Node) (ns : List Node)
      → (any (clashes n) (update_where p f ns) ≡ any (clashes n) ns)
        × (any (clashes (f n)) ns ≡ any (clashes n) ns)
  any-clashes-update p n [] = (refl, refl)
  any-clashes-update p n (x ∷ ns) =
      let (l, r) = any-clashes-update p n ns in
      let (cl, cr) = clashes_changed n x in (ground (arith, l, cl), ground (arith, r, cr))

  pub are_apart-update :
      (p : Node → Bool) (ns : List Node) → are_apart (update_where p f ns) ≡ are_apart ns
  are_apart-update p [] = refl
  are_apart-update p (x ∷ ns) =
      let (l, r) = any-clashes-update p x ns in
      let (l', r') = any-clashes-update p (f x) ns in
      ground (arith, l, r, l', are_apart-update p ns)

pub update_all {ℓ} :
    {A : Type ℓ} (f : A → A) (xs : List A) → update_where (λ x. true) f xs ≡ map f xs
update_all f [] = refl
update_all f (x ∷ xs) = ap (λ ys. f x ∷ ys) (update_all f xs)

pub are_apart-map :
    (f : Node → Node) → KeepsNode f → (ns : List Node) → are_apart (map f ns) ≡ are_apart ns
are_apart-map f k ns = ap are_apart (sym (update_all f ns)) ∙ are_apart-update f k (λ n. true) ns

pub any-keep_le {ℓ} :
    {A : Type ℓ} (p q : A → Bool) (xs : List A) → any p xs ≡ false → any p (keep q xs) ≡ false
any-keep_le p q [] h = refl
any-keep_le p q (x ∷ xs) h = ground (arith, any-keep_le p q xs, h)

pub all-keep_le {ℓ} :
    {A : Type ℓ} (p q : A → Bool) (xs : List A) → all p xs ≡ true → all p (keep q xs) ≡ true
all-keep_le p q [] h = refl
all-keep_le p q (x ∷ xs) h = ground (arith, all-keep_le p q xs, h)

pub are_apart-keep :
    (q : Node → Bool) (ns : List Node) → are_apart ns ≡ true → are_apart (keep q ns) ≡ true
are_apart-keep q [] h = refl
are_apart-keep q (x ∷ ns) h = ground (arith, h, are_apart-keep q ns, any-keep_le (clashes x) q ns)

pub statics_apart-keep :
    (q : StaticPeer → Bool) (ps : List StaticPeer)
    → statics_apart ps ≡ true
    → statics_apart (keep q ps) ≡ true
statics_apart-keep q [] h = refl
statics_apart-keep q (x ∷ ps) h =
    ground (arith, h, statics_apart-keep q ps, any-keep_le (static_clashes x) q ps)

pub publishes_apart-keep :
    (q : Publish → Bool) (ps : List Publish)
    → publishes_apart ps ≡ true
    → publishes_apart (keep q ps) ≡ true
publishes_apart-keep q [] h = refl
publishes_apart-keep q (x ∷ ps) h =
    ground (arith, h, publishes_apart-keep q ps, any-keep_le (publish_clashes x) q ps)

-- A row at the end.
pub statics_apart-append :
    (p : StaticPeer) (ps : List StaticPeer)
    → any (static_clashes p) ps ≡ false
    → statics_apart ps ≡ true
    → statics_apart (ps ++ record p { lock_sig = []; tags = [] } ∷ []) ≡ true
statics_apart-append p [] h k = refl
statics_apart-append p (x ∷ ps) h k = ground (
  arith,
  any-append (static_clashes x) ps (record p { lock_sig = []; tags = [] } ∷ []),
  statics_apart-append p ps,
  text_eq_comm p.id x.id,
  text_eq_comm p.name x.name,
  text_eq_comm p.wg_pub_key x.wg_pub_key,
  text_eq_comm p.overlay_ip x.overlay_ip,
)

pub publishes_apart-append :
    (p : Publish) (ps : List Publish)
    → any (publish_clashes p) ps ≡ false
    → publishes_apart ps ≡ true
    → publishes_apart (ps ++ p ∷ []) ≡ true
publishes_apart-append p [] h k = refl
publishes_apart-append p (x ∷ ps) h k = ground (
  arith,
  any-append (publish_clashes x) ps (p ∷ []),
  publishes_apart-append p ps,
  text_eq_comm p.id x.id,
  text_eq_comm p.name x.name,
)

module _ (f : StaticPeer → StaticPeer) (k : KeepsStatic f) where
  any_static-update :
      (q : StaticPeer → Bool) (n : StaticPeer) (ps : List StaticPeer)
      → (any (static_clashes n) (update_where q f ps) ≡ any (static_clashes n) ps)
        × (any (static_clashes (f n)) ps ≡ any (static_clashes n) ps)
  any_static-update q n [] = (refl, refl)
  any_static-update q n (x ∷ ps) =
      let (l, r) = any_static-update q n ps in
      let (id_x, name_x, key_x, ip_x) = k x in
      let (id_n, name_n, key_n, ip_n) = k n in
      let cl : static_clashes n (f x) ≡ static_clashes n x = rw (id_x, name_x, key_x, ip_x) refl in
      let cr : static_clashes (f n) x ≡ static_clashes n x = rw (id_n, name_n, key_n, ip_n) refl in
      (ground (arith, l, cl), ground (arith, r, cr))

  pub statics_apart-update :
      (q : StaticPeer → Bool) (ps : List StaticPeer)
      → statics_apart (update_where q f ps) ≡ statics_apart ps
  statics_apart-update q [] = refl
  statics_apart-update q (x ∷ ps) =
      let (l, r) = any_static-update q x ps in
      let (l', r') = any_static-update q (f x) ps in
      ground (arith, l, r, l', statics_apart-update q ps)

pub statics_apart-map :
    (f : StaticPeer → StaticPeer)
    → KeepsStatic f
    → (ps : List StaticPeer) → statics_apart (map f ps) ≡ statics_apart ps
statics_apart-map f k ps =
    ap statics_apart (sym (update_all f ps)) ∙ statics_apart-update f k (λ p. true) ps

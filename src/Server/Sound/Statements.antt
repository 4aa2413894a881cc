-- ===== src/Server/Sound/Statements.antt =====
-- Well-formed databases and the statements of internal/coordinator/store/store.go.
use home_kai.Base.{
  ℕ, Text, text_eq, text_eq_iff, text_eq_comm, Bool, true, false, not, ◌&&◌, ◌≡◌, refl, ap, List,
  [], ◌∷◌, any, all-append, all_weaken, update_where, arith, Bool-cases, inl, inr,
}
use home_kai.Text.Csv.{split_csv-join_csv}
use home_kai.Model.{Node, StaticPeer, Policy, Publish}
use home_kai.Netmap.{is_hub}
use home_kai.Store.Exec.{Db, Statement}
use home_kai.Store.Rows.{
  column, has_id, clashes, static_has_id, update_node, set_node_key, delete_node, insert_static,
  update_static, delete_static, insert_policy, delete_policy, insert_publish, delete_publish,
  enroll_node, consume_token, insert_node,
}
use home_kai.Store.Rows.Enrolling.{are_apart, enroll-are_apart}
use home_kai.Server.Sound.{Watch, holds, is_spent, is_sound_policy, is_sound_publish, is_sound}
use home_kai.Server.Sound.Hubs.{one_hub-update, one_hub-keep, enroll-one_hub}
use home_kai.Server.Sound.Spent.{enroll-is_spent}
use home_kai.Server.Sound.Rows.{
  KeepsNode, KeepsStatic, are_apart-update, are_apart-keep, statics_apart-keep,
  publishes_apart-keep, all-keep_le, statics_apart-append, publishes_apart-append,
  statics_apart-update,
}

-- A new key of one row, which no other row has.
module _ (id pubkey : Text) where
  abbrev with_key : Node → Node
  with_key n = record n { wg_pub_key = pubkey; lock_sig = [] }

  abbrev takes_key : Node → Bool
  takes_key n = not (has_id id n) && text_eq pubkey n.wg_pub_key

  no_id :
      (x : Node) (ns : List Node)
      → has_id id x ≡ true
      → any (clashes x) ns ≡ false
      → any (has_id id) ns ≡ false
  no_id x [] h k = refl
  no_id x (y ∷ ns) h k =
      let same : id ≡ x.id = (text_eq_iff id x.id).0 h in
      ground (arith, no_id x ns h, k, ap (λ t. text_eq t y.id) same)

  update_none :
      (ns : List Node) → any (has_id id) ns ≡ false → update_where (has_id id) with_key ns ≡ ns
  update_none [] h = refl
  update_none (x ∷ ns) h = ground (arith, h, update_none ns)

  with_key-clashes :
      (x : Node) (ns : List Node)
      → has_id id x ≡ true
      → any takes_key ns ≡ false
      → any (clashes x) ns ≡ false
      → any (clashes (with_key x)) ns ≡ false
  with_key-clashes x [] h k c = refl
  with_key-clashes x (y ∷ ns) h k c =
      ground (arith, with_key-clashes x ns h, k, c, no_id x (y ∷ ns) h c)

  others_clash :
      (x : Node) (ns : List Node)
      → has_id id x ≡ false
      → takes_key x ≡ false
      → any (clashes x) ns ≡ false
      → any (clashes x) (update_where (has_id id) with_key ns) ≡ false
  others_clash x [] h k c = refl
  others_clash x (y ∷ ns) h k c =
      ground (arith, others_clash x ns h k, h, k, c, text_eq_comm pubkey x.wg_pub_key)

  are_apart-with_key :
      (ns : List Node)
      → any takes_key ns ≡ false
      → are_apart ns ≡ true
      → are_apart (update_where (has_id id) with_key ns) ≡ true
  are_apart-with_key [] k h = refl
  are_apart-with_key (x ∷ ns) k h = elim (Bool-cases (has_id id x)) [
    | inl e ↦ ground (arith, e, k, h, no_id x ns e, update_none ns, with_key-clashes x ns e)
    | inr e ↦ ground (arith, e, k, h, are_apart-with_key ns, others_clash x ns e)
  ]

module _ (watch : Watch) where
  abbrev pub Sound : {A : Type 0} → Statement A → Type 0
  Sound s = (db : Db) → holds watch db ≡ true → holds watch (s db).1 ≡ true

  pub update_node-Sound : (id : Text) (f : Node → Node) → KeepsNode f → Sound (update_node id f)
  unfolding holds is_sound update_node
  update_node-Sound id f k db h = ground (
    arith,
    h,
    are_apart-update f k (has_id id) db.nodes,
    one_hub-update f (λ n. (k n).3) (has_id id) db.nodes,
  )

  pub set_node_key-Sound : (id pubkey : Text) → Sound (set_node_key id pubkey)
  unfolding holds is_sound set_node_key update_node
  set_node_key-Sound id pubkey db h = ground (
    arith,
    h,
    are_apart-with_key id pubkey db.nodes,
    one_hub-update (with_key id pubkey) (λ n. refl) (has_id id) db.nodes,
  )

  pub delete_node-Sound : (id : Text) → Sound (delete_node id)
  unfolding holds is_sound delete_node
  delete_node-Sound id db h =
      let q : Node → Bool = λ n. not (has_id id n) in
      ground (arith, h, are_apart-keep q db.nodes, one_hub-keep q db.nodes)

  pub insert_static-Sound : (p : StaticPeer) → Sound (insert_static p)
  unfolding holds is_sound insert_static
  insert_static-Sound p db h = ground (arith, h, statics_apart-append p db.statics)

  pub update_static-Sound :
      (id : Text) (f : StaticPeer → StaticPeer) → KeepsStatic f → Sound (update_static id f)
  unfolding holds is_sound update_static
  update_static-Sound id f k db h =
      ground (arith, h, statics_apart-update f k (static_has_id id) db.statics)

  pub delete_static-Sound : (id : Text) → Sound (delete_static id)
  unfolding holds is_sound delete_static
  delete_static-Sound id db h =
      ground (arith, h, statics_apart-keep (λ p. not (static_has_id id p)) db.statics)

  pub insert_policy-Sound : (p : Policy) → is_sound_policy p ≡ true → Sound (insert_policy p)
  unfolding holds is_sound insert_policy
  insert_policy-Sound p s db h =
      let row = record p {
        src_tags = column p.src_tags;
        dst_tags = column p.dst_tags;
        ports = column p.ports;
      } in
      let same : column p.ports ≡ p.ports = split_csv-join_csv p.ports (ground (arith, s)) in
      let sound : is_sound_policy row ≡ true = rw same s in
      ground (arith, h, sound, all-append is_sound_policy db.policies (row ∷ []))

  pub delete_policy-Sound : (id : Text) → Sound (delete_policy id)
  unfolding holds is_sound delete_policy
  delete_policy-Sound id db h =
      ground
        (arith, h, all-keep_le is_sound_policy (λ (q : Policy). not (text_eq id q.id)) db.policies)

  pub insert_publish-Sound :
      (p : Publish) → is_sound_publish watch.reserved p ≡ true → Sound (insert_publish p)
  unfolding holds is_sound insert_publish
  insert_publish-Sound p s db h = ground (
    arith,
    h,
    s,
    publishes_apart-append p db.publishes,
    all-append (is_sound_publish watch.reserved) db.publishes (p ∷ []),
  )

  pub delete_publish-Sound : (id : Text) → Sound (delete_publish id)
  unfolding holds is_sound delete_publish
  delete_publish-Sound id db h =
      let q : Publish → Bool = λ q. not (text_eq id q.id) in
      ground (
        arith,
        h,
        publishes_apart-keep q db.publishes,
        all-keep_le (is_sound_publish watch.reserved) q db.publishes,
      )

  pub enroll_node-Sound :
      (h : Text) (now : ℕ) (n : Node) (db : Db)
      → not (is_hub n && any is_hub db.nodes) ≡ true
      → holds watch db ≡ true
      → holds watch (enroll_node h now n db).1 ≡ true
  unfolding holds is_sound enroll_node consume_token insert_node
  enroll_node-Sound h now n db fits k = ground (
    arith,
    k,
    enroll-are_apart h now n db,
    enroll-one_hub h now n db fits,
    all_weaken (λ g. is_spent g db.tokens) (λ g. is_spent g (enroll_node h now n db).1.tokens)
        watch.spent (λ g. enroll-is_spent g h now n db),
  )

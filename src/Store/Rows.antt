-- ===== src/Store/Rows.antt =====
-- The statements of the store on the rows of its tables.
pub mod Enrolling
pub mod Ordering
use home_kai.Base.{
  ℕ, ◌+◌, ◌-◌, Text, codes, text_eq, elem, Bool, true, false, not, ◌&&◌, ◌||◌, Option, none, some,
  List, [], ◌∷◌, ◌++◌, map, any, keep, find, update_where, length, ltb, leb, ◌==◌, is_empty,
  if◌then◌else◌,
}
use home_kai.Text.{join_csv, split_csv}
use home_kai.Model.{Node, StaticPeer, Endpoint, Policy, Publish, Event}
use home_kai.Store.Exec.{
  EnrollToken, Db, StoreErr, not_found, unique, io, Result, ok, err, Statement,
}

-- A list as it is read back from its column.
abbrev pub column : List Text → List Text
column xs = split_csv (join_csv xs)

module _ {A : Type 0} (key : A → ℕ) where
  insert_by : A → List A → List A
  insert_by x [] = x ∷ []
  insert_by x (y ∷ ys) =
      let rest = insert_by x ys in if leb (key x) (key y) then x ∷ y ∷ ys else y ∷ rest

  -- ORDER BY; rows with equal keys keep the order of the table
  unfoldable pub order_by : List A → List A
  unfolding insert_by
  order_by [] = []
  order_by (x ∷ xs) = insert_by x (order_by xs)

abbrev pub has_id : Text → Node → Bool
has_id id n = text_eq id n.id

abbrev pub clashes : Node → Node → Bool
clashes n m =
    text_eq n.id m.id || text_eq n.wg_pub_key m.wg_pub_key || text_eq n.overlay_ip m.overlay_ip

-- the columns that the INSERT leaves out have their defaults
abbrev pub new_row : Node → Node
new_row n = record n {
  routes_advertised = [];
  routes_enabled = [];
  lock_sig = [];
  tags = column n.tags;
}

unfoldable pub insert_node : Node → Db → Result StoreErr Db
insert_node n db =
    if any (clashes n) db.nodes
    then err unique
    else ok (record db { nodes = db.nodes ++ new_row n ∷ [] })

abbrev pub is_valid_token : Text → ℕ → EnrollToken → Bool
is_valid_token token_hash now t =
    text_eq token_hash t.token_hash
    && elim t.used_at [ none ↦ ltb now t.expires_at | some _ ↦ false ]

-- consumeEnrollToken
unfoldable pub consume_token : Text → ℕ → Db → Result StoreErr (Text × Db)
consume_token token_hash now db = elim (find (is_valid_token token_hash now) db.tokens) [
  | none ↦ err not_found
  | some t ↦ ok (
    t.name_hint,
    record db {
      tokens =
          update_where (λ (u : EnrollToken). text_eq token_hash u.token_hash)
            (λ u. record u { used_at = some now }) db.tokens;
    },
  )
]

abbrev pub hinted : Text → Node → Node
hinted hint n = if is_empty hint then n else record n { name = hint }

abbrev commit : {A : Type 0} → Db → A → Result StoreErr Db → Result StoreErr A × Db
commit old a (ok db) = (ok a, db)
commit old a (err e) = (err e, old)

-- EnrollNode: the transaction is rolled back on every error
unfoldable pub enroll_node : Text → ℕ → Node → Statement Node
unfolding insert_node consume_token
enroll_node token_hash now n db = elim (consume_token token_hash now db) [
  | err e ↦ (err e, db)
  | ok (hint, consumed) ↦ commit db (hinted hint n) (insert_node (hinted hint n) consumed)
]

-- execOne with an UPDATE of one node
unfoldable pub update_node : Text → (Node → Node) → Statement (Unit {0})
update_node id f db =
    if any (has_id id) db.nodes
    then (ok tt, record db { nodes = update_where (has_id id) f db.nodes })
    else (err not_found, db)

-- SetNodeKey: the key is UNIQUE, and the lock signature is cleared
unfoldable pub set_node_key : Text → Text → Statement (Unit {0})
unfolding update_node
set_node_key id pubkey db =
    if any (has_id id) db.nodes
      && any (λ n. not (has_id id n) && text_eq pubkey n.wg_pub_key) db.nodes
    then (err unique, db)
    else update_node id (λ n. record n { wg_pub_key = pubkey; lock_sig = [] }) db

-- DELETE FROM nodes; the endpoints of the node go with it
unfoldable pub delete_node : Text → Statement (Unit {0})
delete_node id db =
    if any (has_id id) db.nodes
    then (
      ok tt,
      record db {
        nodes = keep (λ n. not (has_id id n)) db.nodes;
        endpoints = keep (λ (e : Endpoint). not (text_eq id e.node_id)) db.endpoints;
      },
    )
    else (err not_found, db)

abbrev pub static_has_id : Text → StaticPeer → Bool
static_has_id id p = text_eq id p.id

abbrev pub static_clashes : StaticPeer → StaticPeer → Bool
static_clashes p q =
    text_eq p.id q.id
    || text_eq p.name q.name
    || text_eq p.wg_pub_key q.wg_pub_key
    || text_eq p.overlay_ip q.overlay_ip

unfoldable pub insert_static : StaticPeer → Statement (Unit {0})
insert_static p db =
    if any (static_clashes p) db.statics
    then (err unique, db)
    else (ok tt, record db { statics = db.statics ++ record p { lock_sig = []; tags = [] } ∷ [] })

unfoldable pub update_static : Text → (StaticPeer → StaticPeer) → Statement (Unit {0})
update_static id f db =
    if any (static_has_id id) db.statics
    then (ok tt, record db { statics = update_where (static_has_id id) f db.statics })
    else (err not_found, db)

unfoldable pub delete_static : Text → Statement (Unit {0})
delete_static id db =
    if any (static_has_id id) db.statics
    then (ok tt, record db { statics = keep (λ p. not (static_has_id id p)) db.statics })
    else (err not_found, db)

unfoldable pub insert_policy : Policy → Statement (Unit {0})
insert_policy p db =
    if any (λ (q : Policy). text_eq p.id q.id) db.policies then (err unique, db) else (
      ok tt,
      record db {
        policies =
            db.policies
            ++ record p {
              src_tags = column p.src_tags;
              dst_tags = column p.dst_tags;
              ports = column p.ports;
            }
              ∷ [];
      },
    )

unfoldable pub delete_policy : Text → Statement (Unit {0})
delete_policy id db =
    if any (λ (q : Policy). text_eq id q.id) db.policies
    then (ok tt, record db { policies = keep (λ (q : Policy). not (text_eq id q.id)) db.policies })
    else (err not_found, db)

unfoldable pub insert_publish : Publish → Statement (Unit {0})
insert_publish p db =
    if any
      (λ (q : Publish).
        text_eq p.id q.id || text_eq p.name q.name || p.listen_port == q.listen_port)
      db.publishes
    then (err unique, db)
    else (ok tt, record db { publishes = db.publishes ++ p ∷ [] })

unfoldable pub delete_publish : Text → Statement (Unit {0})
delete_publish id db =
    if any (λ (q : Publish). text_eq id q.id) db.publishes
    then (
      ok tt,
      record db { publishes = keep (λ (q : Publish). not (text_eq id q.id)) db.publishes },
    )
    else (err not_found, db)

abbrev pub event_retention : ℕ
event_retention = 5000

-- The two statements of AddEvent. Event ids start at 1, so the truncated difference deletes what the
-- signed one does.
unfoldable pub append_event : Text → Text → Text → ℕ → Statement Event
append_event kind actor message now db =
    let e : Event = record {
      id = db.last_event + 1;
      ts = now;
      kind = kind;
      actor = actor;
      message = message;
    } in
    (ok e, record db { events = db.events ++ e ∷ []; last_event = e.id })

unfoldable pub trim_events : ℕ → Statement (Unit {0})
trim_events id db =
    (ok tt, record db { events = keep (λ (e : Event). ltb (id - event_retention) e.id) db.events })

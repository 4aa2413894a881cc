-- ===== src/Server/Sound/Writes.antt =====
-- Well-formed databases and the calls of internal/coordinator/store/store.go that write.
use home_kai.Base.{
  ℕ, ◌+◌, Text, text_eq, any, all_weaken, Bool-cases, inl, inr, none, ◌∷◌, ◌++◌, Bool, true, false,
  Option, refl, List, [], map, arith,
}
use home_kai.Model.{Node, StaticPeer}
use home_kai.Store.Exec.{EnrollToken, StoreErr, ok, sql}
use home_kai.Store.Keeps.{Keeps, Keeps-sql}
use home_kai.Store.Rows.{column, append_event, trim_events, update_node}
use home_kai.Store.Calls.{
  touch_node, set_node_approved, set_node_tags, set_enabled_routes, set_node_lock_sig, advertise,
  set_advertised_routes, create_enroll_token, bump_netmap_version, set_lock_pubkey, set_lock_active,
  clear_lock_sigs, replace_endpoints, add_event,
}
use home_kai.Server.{bump_netmap, log_event}
use home_kai.Server.Nodes.{bump_if}
use home_kai.Server.Sound.{Watch, is_spent, holds, is_sound}
use home_kai.Server.Sound.Rows.{KeepsNode, are_apart-map, statics_apart-map}
use home_kai.Server.Sound.Spent.{append-is_spent}
use home_kai.Server.Sound.Hubs.{one_hub-map}
use home_kai.Server.Sound.Statements.{update_node-Sound}
use home_kai.Server.Sound.Shared.{reading_rules}

module _ (watch : Watch) where
  update-Keeps :
      (id : Text) (f : Node → Node) → KeepsNode f → Keeps (holds watch) (sql (update_node id f))
  update-Keeps id f k = Keeps-sql (update_node id f) (update_node-Sound watch id f k)

  -- An UPDATE whose missing row is no error.
  quiet_update-Keeps :
      (id : Text) (f : Node → Node)
      → KeepsNode f
      → Keeps {E = StoreErr} {A = Unit {0}}
          (holds watch)
          (sql (λ db. let (r, db') = update_node id f db in (ok tt, db')))
  quiet_update-Keeps id f k =
      Keeps-sql (λ db. let (r, db') = update_node id f db in (ok tt, db'))
        (update_node-Sound watch id f k)

  pub touch_node-Keeps : (id : Text) (now : ℕ) → Keeps (holds watch) (touch_node id now)
  unfolding touch_node
  touch_node-Keeps id now =
      quiet_update-Keeps id (λ n. record n { last_seen = now }) (λ n. (refl, refl, refl, refl))

  pub set_node_approved-Keeps :
      (id : Text) (b : Bool) → Keeps (holds watch) (set_node_approved id b)
  unfolding set_node_approved
  set_node_approved-Keeps id b =
      update-Keeps id (λ n. record n { approved = b }) (λ n. (refl, refl, refl, refl))

  pub set_node_tags-Keeps :
      (id : Text) (tags : List Text) → Keeps (holds watch) (set_node_tags id tags)
  unfolding set_node_tags
  set_node_tags-Keeps id tags =
      update-Keeps id (λ n. record n { tags = column tags }) (λ n. (refl, refl, refl, refl))

  pub set_enabled_routes-Keeps :
      (id : Text) (rs : List Text) → Keeps (holds watch) (set_enabled_routes id rs)
  unfolding set_enabled_routes
  set_enabled_routes-Keeps id rs =
      update-Keeps id (λ n. record n { routes_enabled = column rs }) (λ n. (refl, refl, refl, refl))

  pub set_node_lock_sig-Keeps : (id sig : Text) → Keeps (holds watch) (set_node_lock_sig id sig)
  unfolding set_node_lock_sig
  set_node_lock_sig-Keeps id sig =
      update-Keeps id (λ n. record n { lock_sig = sig }) (λ n. (refl, refl, refl, refl))

  advertise-Keeps :
      (id : Text) (rs enabled : List Text)
      → Keeps {E = StoreErr} {A = Unit {0}}
          (holds watch)
          (sql (λ db. let (r, db') = update_node id (advertise rs enabled) db in (ok tt, db')))
  advertise-Keeps id rs enabled =
      quiet_update-Keeps id (advertise rs enabled) (λ n. (refl, refl, refl, refl))

  pub set_advertised_routes-Keeps :
      (id : Text) (rs : List Text) → Keeps (holds watch) (set_advertised_routes id rs)
  unfolding set_advertised_routes
  set_advertised_routes-Keeps id rs = search (reading_rules, advertise-Keeps)

  pub create_enroll_token-Keeps :
      (h hint : Text) (e : ℕ) → Keeps (holds watch) (create_enroll_token h hint e)
  unfolding holds is_sound create_enroll_token
  create_enroll_token-Keeps h hint e = Keeps-sql _ (λ db k.
      let t : EnrollToken = record {
        token_hash = h;
        name_hint = hint;
        expires_at = e;
        used_at = none;
      } in
      elim (Bool-cases (any (λ (u : EnrollToken). text_eq h u.token_hash) db.tokens)) [
        | inl taken ↦ rw taken k
        | inr fresh ↦ rw fresh (
            ground (
              arith,
              k,
              all_weaken (λ g. is_spent g db.tokens) (λ g. is_spent g (db.tokens ++ t ∷ []))
                  watch.spent (λ g. append-is_spent g db.tokens t fresh),
            ))
      ])

  pub bump_netmap_version-Keeps : Keeps (holds watch) bump_netmap_version
  unfolding holds is_sound bump_netmap_version
  bump_netmap_version-Keeps = search (reading_rules, counted)
    where
      counted :
          Keeps {E = StoreErr} {A = Unit {0}}
            (holds watch)
            (sql (λ db. (ok tt, record db { netmap_version = db.netmap_version + 1 })))
      counted = Keeps-sql _ (λ db h. h)

  pub set_lock_pubkey-Keeps : (v : Option Text) → Keeps (holds watch) (set_lock_pubkey v)
  unfolding holds is_sound set_lock_pubkey
  set_lock_pubkey-Keeps v = Keeps-sql _ (λ db h. h)

  pub set_lock_active-Keeps : (v : Option Text) → Keeps (holds watch) (set_lock_active v)
  unfolding holds is_sound set_lock_active
  set_lock_active-Keeps v = Keeps-sql _ (λ db h. h)

  pub replace_endpoints-Keeps :
      (id kind : Text) (addrs : List Text) (now : ℕ)
      → Keeps (holds watch) (replace_endpoints id kind addrs now)
  unfolding holds is_sound replace_endpoints
  replace_endpoints-Keeps id kind addrs now = Keeps-sql _ (λ db h. ground (arith, h))

  append_event-Keeps :
      (kind actor message : Text) (now : ℕ)
      → Keeps (holds watch) (sql (append_event kind actor message now))
  unfolding holds is_sound append_event
  append_event-Keeps kind actor message now = Keeps-sql _ (λ db h. h)

  trim_events-Keeps : (id : ℕ) → Keeps (holds watch) (sql (trim_events id))
  unfolding holds is_sound trim_events
  trim_events-Keeps id = Keeps-sql _ (λ db h. h)

  pub add_event-Keeps :
      (kind actor message : Text) (now : ℕ) → Keeps (holds watch) (add_event kind actor message now)
  unfolding add_event
  add_event-Keeps kind actor message now =
      search (reading_rules, append_event-Keeps, trim_events-Keeps)

  pub bump_netmap-Keeps : Keeps (holds watch) bump_netmap
  unfolding bump_netmap
  bump_netmap-Keeps = search (reading_rules, bump_netmap_version-Keeps)

  pub log_event-Keeps :
      (kind actor message : Text) (now : ℕ) → Keeps (holds watch) (log_event kind actor message now)
  unfolding log_event
  log_event-Keeps kind actor message now = search (reading_rules, add_event-Keeps)

  pub bump_if-Keeps : (b : Bool) → Keeps (holds watch) (bump_if b)
  bump_if-Keeps true = search (reading_rules, bump_netmap-Keeps)
  bump_if-Keeps false = search reading_rules

  unsigned_nodes-Keeps : Keeps {E = StoreErr} {A = Unit {0}} (holds watch) (
      sql (λ db.
        (ok tt, record db { nodes = map (λ (n : Node). record n { lock_sig = [] }) db.nodes })))
  unfolding holds is_sound
  unsigned_nodes-Keeps = Keeps-sql _ (λ db h. ground (
    arith,
    h,
    are_apart-map (λ (n : Node). record n { lock_sig = [] }) (λ n. (refl, refl, refl, refl))
        db.nodes,
    one_hub-map (λ (n : Node). record n { lock_sig = [] }) (λ n. refl) db.nodes,
  ))

  unsigned_statics-Keeps : Keeps {E = StoreErr} {A = Unit {0}} (holds watch) (
      sql (λ db. (
        ok tt,
        record db { statics = map (λ (p : StaticPeer). record p { lock_sig = [] }) db.statics },
      )))
  unfolding holds is_sound
  unsigned_statics-Keeps = Keeps-sql _ (λ db h. ground (
    arith,
    h,
    statics_apart-map (λ (p : StaticPeer). record p { lock_sig = [] })
        (λ p. (refl, refl, refl, refl)) db.statics,
  ))

  pub clear_lock_sigs-Keeps : Keeps (holds watch) clear_lock_sigs
  unfolding clear_lock_sigs
  clear_lock_sigs-Keeps = search (reading_rules, unsigned_nodes-Keeps, unsigned_statics-Keeps)

pub ruleset writing_rules = (
  reading_rules, touch_node-Keeps, set_node_approved-Keeps, set_node_tags-Keeps,
  set_enabled_routes-Keeps, set_node_lock_sig-Keeps, set_advertised_routes-Keeps,
  create_enroll_token-Keeps, set_lock_pubkey-Keeps, set_lock_active-Keeps, replace_endpoints-Keeps,
  bump_netmap-Keeps, log_event-Keeps, bump_if-Keeps, clear_lock_sigs-Keeps,
)

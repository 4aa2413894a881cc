-- ===== src/Server/Sound.antt =====
-- Well-formed databases of the coordinator (internal/coordinator/store/store.go).
pub mod Rows
pub mod Hubs
pub mod Spent
pub mod Statements
pub mod Actions
pub mod Shared
pub mod Writes
pub mod Sql
pub mod Enrolling
pub mod Naming
pub mod Handlers
pub mod Creation
pub mod Reach
pub mod Once
use home_kai.Base.{
  ℕ, Text, text_eq, text_eq_comm, text_eq_refl, Bool, true, false, not, ◌&&◌, ◌||◌, Option, none,
  some, ◌≡◌, refl, sym, ap, ◌∙◌, List, [], ◌∷◌, ◌++◌, any, any-append, all, all-append, keep,
  update_where, map, ltb, ◌==◌, is_empty, arith, if◌then◌else◌, Bool-cases, inl, inr,
}
use home_kai.Text.Csv.{is_entry, split_csv-join_csv}
use home_kai.Model.{Node, StaticPeer, Policy, Publish}
use home_kai.Netmap.{is_hub}
use home_kai.Store.Exec.{Db, EnrollToken, Statement}
use home_kai.Store.Rows.{
  column, has_id, clashes, static_clashes, static_has_id, update_node, set_node_key, delete_node,
  insert_static, update_static, delete_static, insert_policy, delete_policy, insert_publish,
  delete_publish, enroll_node,
}
use home_kai.Store.Rows.Enrolling.{are_apart, enroll-are_apart}
use home_kai.Server.{Config}
use home_kai.Server.Publishes.{port_reserved}
use home_kai.Server.Admin.{is_portless, valid_protocols}

-- No two static peers share an id, a name, a key or an address.
abbrev pub statics_apart : List StaticPeer → Bool
statics_apart [] = true
statics_apart (p ∷ ps) = let rest = statics_apart ps in not (any (static_clashes p) ps) && rest

abbrev pub publish_clashes : Publish → Publish → Bool
publish_clashes p q = text_eq p.id q.id || text_eq p.name q.name || p.listen_port == q.listen_port

abbrev pub publishes_apart : List Publish → Bool
publishes_apart [] = true
publishes_apart (p ∷ ps) = let rest = publishes_apart ps in not (any (publish_clashes p) ps) && rest

-- Ports as a comma list can hold them, and none where the protocol has none.
abbrev pub is_sound_policy : Policy → Bool
is_sound_policy p = all is_entry p.ports && not (not (is_empty p.ports) && is_portless p.protocol)

-- A port between 1 and 65535 that neither the services of the hub nor the configuration take.
abbrev pub is_sound_publish : List ℕ → Publish → Bool
is_sound_publish reserved p =
    not (ltb p.listen_port 1 || ltb 65535 p.listen_port)
    && not (port_reserved reserved p.listen_port)

-- At most one hub.
abbrev pub one_hub : List Node → Bool
one_hub [] = true
one_hub (n ∷ ns) = let rest = one_hub ns in not (is_hub n && any is_hub ns) && rest

abbrev pub is_used : Option ℕ → Bool
is_used none = false
is_used (some t) = true

unfoldable pub is_sound : List ℕ → Db → Bool
is_sound reserved db =
    (are_apart db.nodes && one_hub db.nodes)
    && (statics_apart db.statics
        && (publishes_apart db.publishes
            && (all (is_sound_publish reserved) db.publishes && all is_sound_policy db.policies)))

-- Every token with the hash is used, and there is one.
abbrev pub is_spent : Text → List EnrollToken → Bool
is_spent h tokens =
    any (λ (t : EnrollToken). text_eq h t.token_hash) tokens
    && all (λ (t : EnrollToken). not (text_eq h t.token_hash) || is_used t.used_at) tokens

-- The ports that the configuration takes, and the hashes of tokens that are spent.
pub record Watch : Type 0 where
  pub reserved : List ℕ
  pub spent : List Text

-- A well-formed database in which these tokens are spent.
unfoldable pub holds : Watch → Db → Bool
holds watch db = is_sound watch.reserved db && all (λ h. is_spent h db.tokens) watch.spent

abbrev pub watching : Config → List Text → Watch
watching cfg spent = record { reserved = cfg.reserved_ports; spent = spent }

-- ===== src/Server/Sound/Creation.antt =====
-- Well-formed databases and the handlers that create policies and published ports
-- (internal/coordinator/acl.go, publish.go).
use home_kai.Base.{
  ℕ, Text, codes, Bool, true, not, ◌&&◌, ◌||◌, Option, some, ◌≡◌, List, ◌++◌, ltb, is_empty, arith,
}
use home_kai.Base.Int.{ℤ, pos, negsuc, to_ℕ}
use home_kai.Model.{Policy, Publish}
use home_kai.Normalize.{normalize_tags, normalize_ports}
use home_kai.Normalize.Ports.{normalize_ports_entries}
use home_kai.Store.Exec.{Db, StoreErr, not_found, unique, io, sql}
use home_kai.Store.Keeps.{Keeps, Keeps-sql, Keeps-bind, Keeps-catch}
use home_kai.Store.Rows.{insert_policy, insert_publish}
use home_kai.Server.{Env, Config}
use home_kai.Server.Admin.{PolicyRequest, protocol_of, is_portless, handle_policy_create}
use home_kai.Server.Publishes.{
  PublishRequest, listen_port_ok, port_reserved, key_conflict, handle_publish_create,
}
use home_kai.Server.Sound.{Watch, watching, holds, is_sound_policy, is_sound_publish}
use home_kai.Server.Sound.Statements.{insert_policy-Sound, insert_publish-Sound}
use home_kai.Server.Sound.Actions.{Keeps-bind-require, Keeps-bind-or_fail, internal-Keeps}
use home_kai.Server.Sound.Writes.{writing_rules}

key_conflict-Keeps : {p : Db → Bool} {A : Type 0} (e : StoreErr) → Keeps {A = A} p (key_conflict e)
key_conflict-Keeps not_found = search writing_rules
key_conflict-Keeps unique = search writing_rules
key_conflict-Keeps io = search writing_rules

insert_policy-Keeps :
    (watch : Watch) (p : Policy)
    → is_sound_policy p ≡ true
    → Keeps (holds watch) (sql (insert_policy p))
insert_policy-Keeps watch p h = Keeps-sql (insert_policy p) (insert_policy-Sound watch p h)

insert_publish-Keeps :
    (watch : Watch) (p : Publish)
    → is_sound_publish watch.reserved p ≡ true
    → Keeps (holds watch) (sql (insert_publish p))
insert_publish-Keeps watch p h = Keeps-sql (insert_publish p) (insert_publish-Sound watch p h)

-- The row that handlePolicyCreate stores, and that of handlePublishCreate.
abbrev new_policy : PolicyRequest → List Text → Text → ℕ → Policy
new_policy req ports id now = record {
  id = codes "pol_" ++ id;
  name = req.name;
  src_tags = normalize_tags req.src_tags;
  dst_tags = normalize_tags req.dst_tags;
  protocol = protocol_of req;
  ports = ports;
  enabled = req.enabled;
  created_at = now;
}

abbrev new_publish : PublishRequest → Text → ℕ → Publish
new_publish req id now = record {
  id = codes "pub_" ++ id;
  name = req.name;
  listen_port = to_ℕ req.listen_port;
  target = req.target;
  created_at = now;
}

new_policy_sound :
    (req : PolicyRequest) (ports : List Text) (id : Text) (now : ℕ)
    → normalize_ports req.ports ≡ some ports
    → not (not (is_empty ports) && is_portless (protocol_of req)) ≡ true
    → is_sound_policy (new_policy req ports id now) ≡ true
new_policy_sound req ports id now e h = ground (arith, normalize_ports_entries req.ports ports e, h)

port_fits :
    (port : ℤ)
    → listen_port_ok port ≡ true
    → not (ltb (to_ℕ port) 1 || ltb 65535 (to_ℕ port)) ≡ true
port_fits (pos n) h = h
port_fits (negsuc n) h = ground (arith, h)

new_publish_sound :
    (watch : Watch) (req : PublishRequest) (id : Text) (now : ℕ)
    → listen_port_ok req.listen_port ≡ true
    → not (port_reserved watch.reserved (to_ℕ req.listen_port)) ≡ true
    → is_sound_publish watch.reserved (new_publish req id now) ≡ true
new_publish_sound watch req id now h k = ground (arith, port_fits req.listen_port h, k)

pub handle_policy_create-Keeps :
    (watch : Watch) (body : Option PolicyRequest) (random_id : Option Text) (now : ℕ)
    → Keeps (holds watch) (handle_policy_create body random_id now)
unfolding handle_policy_create
handle_policy_create-Keeps watch body random_id now = Keeps-bind-or_fail _ _ _ (λ req _.
    Keeps-bind-require _ _ _ (λ _. Keeps-bind-require _ _ _ (λ _.
      Keeps-bind-or_fail _ _ _ (λ ports e. Keeps-bind-require _ _ _ (λ portless.
        Keeps-bind-or_fail _ _ _ (λ id _.
          let stored =
            insert_policy-Keeps watch (new_policy req ports id now)
              (new_policy_sound req ports id now e portless) in
          Keeps-bind _ _ (internal-Keeps _ stored) (λ _. search writing_rules depth 30)))))))

pub handle_publish_create-Keeps :
    (env : Env) (cfg : Config) (spent : List Text) (split : Text → Option (Text × Text))
    (body : Option PublishRequest) (random_id : Option Text) (now : ℕ)
    → Keeps (holds (watching cfg spent)) (handle_publish_create env cfg split body random_id now)
unfolding handle_publish_create
handle_publish_create-Keeps env cfg spent split body random_id now =
    Keeps-bind-or_fail _ _ _ (λ req _. Keeps-bind-require _ _ _ (λ _.
      Keeps-bind-require _ _ _ (λ port. Keeps-bind-require _ _ _ (λ free.
        Keeps-bind-require _ _ _ (λ _. Keeps-bind-or_fail _ _ _ (λ id _.
          let stored =
            insert_publish-Keeps (watching cfg spent) (new_publish req id now)
              (new_publish_sound (watching cfg spent) req id now port free) in
          Keeps-bind _ _ (Keeps-catch _ _ stored key_conflict-Keeps)
            (λ _. search writing_rules depth 30)))))))

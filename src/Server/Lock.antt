-- ===== src/Server/Lock.antt =====
-- internal/coordinator/lock.go: the coordinator's half of the network lock.
pub mod Arming
use home_kai.Base.{
  ℕ, Text, codes, text_eq, Bool, false, not, ◌&&◌, Option, none, some, List, [], ◌∷◌, ◌++◌, map,
  keep, length, ◌==◌, is_empty, if◌then◌else◌,
}
use home_kai.Model.{Node, StaticPeer}
use home_kai.Agent.Lock.{lock_message, public_key_size}
use home_kai.Store.Exec.{pure, ◌>>=◌, ◌>>◌, sql}
use home_kai.Store.Rows.{update_static}
use home_kai.Store.Calls.{
  nodes, static_peers, set_node_lock_sig, set_lock_pubkey, set_lock_active, clear_lock_sigs,
}
use home_kai.Server.{
  Env, Handler, bad_request, missing, conflict, require, or_fail, internal, bump_netmap, log_event,
}
use home_kai.Server.Nodes.{lock_state}

pub data Kind : Type 0 where
  node static : Kind

pub record Binding : Type 0 where
  pub kind : Kind
  pub id : Text
  pub wg_public_key : Text
  pub overlay_ip : Text

-- A signature of a request: the text of its kind, the id and the signature.
pub record Signature : Type 0 where
  pub kind : Text
  pub id : Text
  pub sig : Text

abbrev pub node_binding : Node → Binding
node_binding n = record {
  kind = node;
  id = n.id;
  wg_public_key = n.wg_pub_key;
  overlay_ip = n.overlay_ip;
}

abbrev pub static_binding : StaticPeer → Binding
static_binding p = record {
  kind = static;
  id = p.id;
  wg_public_key = p.wg_pub_key;
  overlay_ip = p.overlay_ip;
}

-- What has no signature yet.
unfoldable pub unsigned : List Node → List StaticPeer → List Binding
unsigned ns ss =
    map node_binding (keep (λ (n : Node). is_empty n.lock_sig) ns)
    ++ map static_binding (keep (λ (p : StaticPeer). is_empty p.lock_sig) ss)

unfoldable pub pending_bindings : Handler (List Binding)
pending_bindings = do ns ← internal nodes; ss ← internal static_peers; pure (unsigned ns ss)

-- The keys of the map `bindings`, kind and id with a slash between them; ids are fresh random
-- texts, so a later binding never replaces one with the same key.
abbrev kind_text : Kind → Text
kind_text node = codes "node"
kind_text static = codes "static"

abbrev pub binding_key : Binding → Text
binding_key b = kind_text b.kind ++ (b'/' ∷ b.id)

unfoldable pub find_binding : Text → List Binding → Option Binding → Option Binding
find_binding key [] found = found
find_binding key (b ∷ bs) found =
    find_binding key bs (if text_eq key (binding_key b) then some b else found)

abbrev pub valid_public_key : Option Text → Bool
valid_public_key none = false
valid_public_key (some key) = length key == public_key_size

module _ (env : Env) where
  unfoldable pub handle_lock_init : Option Text → ℕ → Handler (Unit {0})
  handle_lock_init body now = do
    public_key ← or_fail body bad_request
    require (valid_public_key (env.crypto.decode public_key)) bad_request
    cur ← lock_state
    (if not (is_empty cur.0) && not (text_eq cur.0 public_key)
        then (do require (not cur.1) conflict; internal clear_lock_sigs)
        else pure tt)
    internal (set_lock_pubkey (some public_key))
    log_event (codes "lock.init") (codes "admin")
        (codes "network lock инициализирован (ожидает подписи)") now

  abbrev pub verifies : Text → Binding → Text → Bool
  verifies pub_key b sig = elim (env.crypto.decode sig) [
    | none ↦ false
    | some raw ↦ env.crypto.verify pub_key (lock_message b.wg_public_key b.overlay_ip) raw
  ]

  -- DecodeString's error is ignored: the key is then what was decoded, here the empty text
  abbrev pub decoded : Option Text → Text
  decoded none = []
  decoded (some t) = t

  unfoldable pub sign_one : Text → List Binding → Signature → Handler (Unit {0})
  sign_one pub_key bindings s = do
    b ← or_fail (find_binding (s.kind ++ (b'/' ∷ s.id)) bindings none) missing
    require (verifies pub_key b s.sig) bad_request
    (if text_eq s.kind (codes "node")
        then internal (set_node_lock_sig s.id s.sig)
        else internal (sql (update_static s.id (λ p. record p { lock_sig = s.sig }))))

  unfoldable pub sign_all : Text → List Binding → List Signature → Handler (Unit {0})
  sign_all pub_key bindings [] = pure tt
  sign_all pub_key bindings (s ∷ sigs) = do
    sign_one pub_key bindings s
    sign_all pub_key bindings sigs

  -- The result: how many signatures were stored, and how many bindings still have none.
  unfoldable pub handle_lock_sign : Option (List Signature) → ℕ → Handler (ℕ × ℕ)
  handle_lock_sign body now = do
    lock ← lock_state
    require (not (is_empty lock.0)) conflict
    sigs ← or_fail body bad_request
    ns ← internal nodes
    ss ← internal static_peers
    sign_all (decoded (env.crypto.decode lock.0)) (map node_binding ns ++ map static_binding ss)
        sigs
    pending ← pending_bindings
    (if is_empty pending
        then (do
          internal (set_lock_active (some (codes "1")))
          log_event (codes "lock.active") (codes "admin")
              (codes "network lock активирован (все привязки подписаны)") now)
        else pure tt)
    bump_netmap
    pure (length sigs, length pending)

  unfoldable pub handle_lock_disable : Handler (Unit {0})
  handle_lock_disable = do
    internal (set_lock_pubkey none)
    internal (set_lock_active none)
    bump_netmap
    pure tt

-- ===== src/Server/Admin.antt =====
-- What the administrator creates and deletes: static peers (internal/coordinator/staticpeer.go) and
-- policies (internal/coordinator/acl.go). Listings, which only read, are not modelled.
use home_kai.Base.{
  ℕ, Text, codes, text_eq, elem, Bool, not, ◌&&◌, ◌||◌, Option, List, [], ◌∷◌, ◌++◌, is_empty,
  if◌then◌else◌,
}
use home_kai.Text.{join_csv, join_or}
use home_kai.Netip.{show_addr}
use home_kai.Model.{StaticPeer, Policy}
use home_kai.Normalize.{normalize_tags, normalize_ports}
use home_kai.Store.Exec.{pure, catch, sql, ◌>>=◌, ◌>>◌}
use home_kai.Store.Rows.{
  column, insert_static, update_static, delete_static, insert_policy, delete_policy,
}
use home_kai.Server.Phones.{StaticPeerRequest, hub_node, static_peer_conf}
use home_kai.Server.{
  Config, Env, Handler, bad_request, conflict, internal_error, require, or_fail, internal,
  missing_or_internal, static_peer_or_404, allocate, bump_netmap, log_event,
}

-- handleStaticPeerCreate: `keys` is the result of `wgkeys.Generate`, a private and a public key.
module _ (env : Env) (cfg : Config) where
  unfoldable pub handle_static_peer_create :
      Option StaticPeerRequest
      → Option (Text × Text)
      → Option Text
      → Text
      → ℕ
      → Handler (StaticPeer × Text)
  handle_static_peer_create body keys random_id dns now = do
    req ← or_fail body bad_request
    require (not (is_empty req.name)) bad_request
    found ← internal hub_node
    hub ← or_fail found conflict
    pair ← or_fail keys internal_error
    addr ← allocate env cfg
    id ← or_fail random_id internal_error
    let sp : StaticPeer = record {
      id = codes "sp_" ++ id;
      name = req.name;
      wg_pub_key = pair.1;
      wg_priv_key = pair.0;
      overlay_ip = show_addr env.ip6 addr;
      dns_name = dns;
      created_at = now;
      lock_sig = [];
      tags = [];
    }
    internal (sql (insert_static sp))
    bump_netmap
    log_event (codes "static_peer.create") (codes "admin")
        (codes "static peer " ++ (sp.name ++ (codes " (" ++ (sp.overlay_ip ++ codes ") создан"))))
        now
    pure (sp, static_peer_conf env cfg pair.0 sp.overlay_ip hub req.full)

unfoldable pub handle_static_peer_tags : Text → Option (List Text) → ℕ → Handler (Unit {0})
handle_static_peer_tags id body now = do
  sp ← static_peer_or_404 id
  wanted ← or_fail body bad_request
  let tags = normalize_tags wanted
  internal (sql (update_static sp.id (λ p. record p { tags = column tags })))
  bump_netmap
  log_event (codes "static_peer.tags") (codes "admin")
      (codes "static peer " ++ (sp.name ++ (codes ": заданы теги: " ++ join_csv tags))) now

unfoldable pub handle_static_peer_delete : Text → ℕ → Handler (Unit {0})
handle_static_peer_delete id now = do
  sp ← static_peer_or_404 id
  internal (sql (delete_static sp.id))
  bump_netmap
  log_event (codes "static_peer.delete") (codes "admin")
      (codes "static peer " ++ (sp.name ++ codes " удалён")) now

pub record PolicyRequest : Type 0 where
  pub name : Text
  pub src_tags : List Text
  pub dst_tags : List Text
  pub protocol : Text
  pub ports : List Text
  pub enabled : Bool

abbrev pub valid_protocols : List Text
valid_protocols = codes "any" ∷ codes "tcp" ∷ codes "udp" ∷ codes "icmp" ∷ []

abbrev pub protocol_of : PolicyRequest → Text
protocol_of req = if is_empty req.protocol then codes "any" else req.protocol

abbrev pub is_portless : Text → Bool
is_portless proto = text_eq proto (codes "any") || text_eq proto (codes "icmp")

-- protoPorts
unfoldable pub proto_ports : Text → List Text → Text
proto_ports proto ports = if is_empty ports then proto else proto ++ (b' ' ∷ join_csv ports)

unfoldable pub handle_policy_create : Option PolicyRequest → Option Text → ℕ → Handler Policy
handle_policy_create body random_id now = do
  req ← or_fail body bad_request
  require (not (is_empty req.name)) bad_request
  let proto = protocol_of req
  require (elem proto valid_protocols) bad_request
  ports ← or_fail (normalize_ports req.ports) bad_request
  require (not (not (is_empty ports) && is_portless proto)) bad_request
  id ← or_fail random_id internal_error
  let pol : Policy = record {
    id = codes "pol_" ++ id;
    name = req.name;
    src_tags = normalize_tags req.src_tags;
    dst_tags = normalize_tags req.dst_tags;
    protocol = proto;
    ports = ports;
    enabled = req.enabled;
    created_at = now;
  }
  internal (sql (insert_policy pol))
  bump_netmap
  log_event (codes "policy.create") (codes "admin")
      (codes "политика \""
        ++ (pol.name
            ++ (codes "\": "
                ++ (join_or pol.src_tags (codes "любой")
                    ++ (codes " → "
                        ++ (join_or pol.dst_tags (codes "любой")
                            ++ (codes " ("
                                ++ (proto_ports pol.protocol pol.ports ++ codes ")"))))))))
      now
  pure pol

unfoldable pub handle_policy_delete : Text → ℕ → Handler (Unit {0})
handle_policy_delete id now = do
  catch (sql (delete_policy id)) missing_or_internal
  bump_netmap
  log_event (codes "policy.delete") (codes "admin") (codes "политика удалена") now

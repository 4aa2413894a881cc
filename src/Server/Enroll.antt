-- ===== src/Server/Enroll.antt =====
-- internal/coordinator/node.go: enrollment and enroll tokens. Enrollments are serialised by
-- `enrollMu`, so the handler runs as one action.
pub mod Tokens
use home_kai.Base.{
  ℕ, ◌+◌, ◌-◌, ◌*◌, ◌%◌, ◌^◌, ◌==◌, Text, codes, text_eq, Bool, true, false, not, ◌&&◌, ◌||◌,
  Option, none, some, List, [], ◌∷◌, ◌++◌, any, ltb, leb, is_empty, if◌then◌else◌,
}
use home_kai.Base.Int.{ℤ, pos, negsuc, to_ℕ, is_port_or_zero}
use home_kai.Netip.{Addr, show_addr, show_prefix}
use home_kai.Model.{Node, role_hub, role_node, second, hour}
use home_kai.Ipam.{hub_ip}
use home_kai.Netmap.{is_hub}
use home_kai.Store.Exec.{StoreErr, not_found, Exec, pure, throw, catch, sql, ◌>>=◌, ◌>>◌}
use home_kai.Store.Rows.{enroll_node}
use home_kai.Store.Calls.{nodes, create_enroll_token}
use home_kai.Server.{
  Config, Env, Handler, Status, bad_request, unauthorized, conflict, internal_error, require,
  or_fail, internal, allocate, bump_netmap, log_event,
}

pub record EnrollRequest : Type 0 where
  pub hostname : Text
  pub os : Text
  pub arch : Text
  pub role : Text
  pub wg_public_key : Text
  pub wg_listen_port : ℤ

pub record EnrollResponse : Type 0 where
  pub node_id : Text
  pub auth_secret : Text
  pub overlay_ip : Text
  pub overlay_cidr : Text
  pub dns_name : Text
  pub mtu : ℕ
  pub netmap_version : ℕ

abbrev pub role_of : EnrollRequest → Text
role_of req = if is_empty req.role then role_node else req.role

pub record TokenRequest : Type 0 where
  pub ttl_sec : ℤ
  pub name_hint : Text

-- `time.Duration(n) * time.Second` wraps at 64 bits; a negative duration lies in the past.
abbrev pub nanoseconds : ℕ → ℕ
nanoseconds n = (n * second) % 2 ^ 64

abbrev pub max_token_ttl : ℕ
max_token_ttl = 7 * 24 * hour

-- The expiry: an hour from now, or what is asked for, with a week at most.
unfoldable pub token_expires : ℕ → ℤ → ℕ
token_expires now (pos n) =
    if n == 0
    then now + hour
    else if leb (2 ^ 63) (nanoseconds n)
    then now - (2 ^ 64 - nanoseconds n)
    else if ltb max_token_ttl (nanoseconds n)
    then now + max_token_ttl
    else now + nanoseconds n
token_expires now (negsuc n) = now + hour

module _ (env : Env) (cfg : Config) where
  -- the address of the new node; a second hub is refused
  unfoldable pub overlay_ip_for : Text → List Node → Handler Addr
  overlay_ip_for role ns =
      if text_eq role role_hub
      then (do require (not (any is_hub ns)) conflict; pure (hub_ip cfg.overlay_cidr))
      else allocate env cfg

  abbrev pub enrolled_node : EnrollRequest → Text → Text → Text → Text → ℕ → Node
  enrolled_node req id secret ip dns now = record {
    id = codes "n_" ++ id;
    name = req.hostname;
    os = req.os;
    arch = req.arch;
    role = role_of req;
    wg_pub_key = req.wg_public_key;
    wg_listen_port = to_ℕ req.wg_listen_port;
    overlay_ip = ip;
    dns_name = dns;
    auth_secret_hash = env.sha256hex secret;
    created_at = now;
    last_seen = now;
    routes_advertised = [];
    routes_enabled = [];
    lock_sig = [];
    approved = not cfg.require_approval || text_eq (role_of req) role_hub;
    tags = [];
  }

  abbrev pub token_error : {A : Type 0} → StoreErr → Handler A
  token_error not_found = throw unauthorized
  token_error _ = throw internal_error

  -- `random_id` and `random_secret` are the results of `randomHex`, `dns` that of `ensureDNS`.
  unfoldable pub handle_enroll :
      Text → Option EnrollRequest → Option Text → Option Text → Text → ℕ → Handler EnrollResponse
  handle_enroll tok body random_id random_secret dns now = do
    require (not (is_empty tok)) unauthorized
    req ← or_fail body bad_request
    require (env.valid_key req.wg_public_key) bad_request
    require (text_eq (role_of req) role_node || text_eq (role_of req) role_hub) bad_request
    require (is_port_or_zero req.wg_listen_port) bad_request
    ns ← internal nodes
    addr ← overlay_ip_for (role_of req) ns
    id ← or_fail random_id internal_error
    secret ← or_fail random_secret internal_error
    let ip = show_addr env.ip6 addr
    node ←
        catch (sql (enroll_node (env.sha256hex tok) now (enrolled_node req id secret ip dns now)))
          token_error
    version ← bump_netmap
    log_event (if node.approved then codes "node.enroll" else codes "node.pending") node.name
        (if node.approved
          then codes "узел "
            ++ (node.name
                ++ (codes " (" ++ (node.overlay_ip ++ (codes ") подключён с ролью " ++ node.role))))
          else codes "узел "
            ++ (node.name ++ (codes " (" ++ (node.overlay_ip ++ codes ") ожидает одобрения"))))
        now
    pure (record {
      node_id = node.id;
      auth_secret = secret;
      overlay_ip = node.overlay_ip;
      overlay_cidr = show_prefix env.ip6 cfg.overlay_cidr;
      dns_name = dns;
      mtu = cfg.mtu;
      netmap_version = version;
    })

  unfoldable pub handle_token_create : Option TokenRequest → Option Text → ℕ → Handler (Text × ℕ)
  handle_token_create body random now = do
    req ← or_fail body bad_request
    token ← or_fail random internal_error
    let expires = token_expires now req.ttl_sec
    internal (create_enroll_token (env.sha256hex token) req.name_hint expires)
    pure (token, expires)

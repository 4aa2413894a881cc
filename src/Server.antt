-- ===== src/Server.antt =====
-- internal/coordinator/server.go and session.go: what the handlers of the control API share. A
-- handler is an action that returns its body or fails with a status. Request bodies that do not
-- decode are `none`; fresh random texts and the time are arguments; hashing, key parsing and the
-- signature scheme are fields of `Env`.
pub mod Enroll
pub mod Nodes
pub mod Lock
pub mod Admin
pub mod Publishes
pub mod Sessions
pub mod Wakes
pub mod Addresses
pub mod Sound
pub mod Names
pub mod Phones
pub mod Routes
use home_kai.Base.{
  ℕ, ◌+◌, Text, codes, text_eq, Bool, true, false, not, ◌&&◌, Option, none, some, List, [], ◌∷◌,
  find, is_empty, if◌then◌else◌,
}
use home_kai.Netip.{Addr, Prefix, Ip6Text, show_addr}
use home_kai.Model.{Node, StaticPeer}
use home_kai.Agent.Lock.{Crypto}
use home_kai.Ipam.{Allocation, got, exhausted, unsupported, out_of_fuel, allocate_ip, hub_ip}
use home_kai.Store.Exec.{World, StoreErr, not_found, Exec, pure, throw, catch, ◌>>=◌, ◌>>◌}
use home_kai.Store.Calls.{
  nodes, node_by_id, node_by_auth_hash, static_peer_by_id, touch_node, bump_netmap_version,
  allocated_ips, add_event,
}

abbrev pub Status : Type 0
Status = ℕ

abbrev pub bad_request : Status
bad_request = 400

abbrev pub unauthorized : Status
unauthorized = 401

abbrev pub missing : Status
missing = 404

abbrev pub conflict : Status
conflict = 409

abbrev pub internal_error : Status
internal_error = 500

-- The parts of `Config` that the handlers read.
pub record Config : Type 0 where
  pub hub_endpoint : Text
  pub overlay_cidr : Prefix
  pub mtu : ℕ
  pub admin_token_hash : Text
  pub require_approval : Bool
  pub reserved_ports : List ℕ

pub record Env : Type 0 where
  pub ip6 : Ip6Text
  pub crypto : Crypto
  pub sha256hex : Text → Text
  pub valid_key : Text → Bool

abbrev pub Handler : Type 0 → Type 0
Handler A = Exec Status A

-- `if !ok { writeErr(w, status, …); return }`
unfoldable pub require : Bool → Status → Handler (Unit {0})
require true status = pure tt
require false status = throw status

unfoldable pub or_fail : {A : Type 0} → Option A → Status → Handler A
or_fail none status = throw status
or_fail (some a) status = pure a

-- errInternal on every error of the call
unfoldable pub internal : {A : Type 0} → Exec StoreErr A → Handler A
internal m = catch m (λ _. throw internal_error)

-- ErrNotFound becomes 404, every other error 500
abbrev pub missing_or_internal : {A : Type 0} → StoreErr → Handler A
missing_or_internal not_found = throw missing
missing_or_internal _ = throw internal_error

unfoldable pub node_or_404 : Text → Handler Node
node_or_404 id = catch (node_by_id id) missing_or_internal

unfoldable pub static_peer_or_404 : Text → Handler StaticPeer
static_peer_or_404 id = catch (static_peer_by_id id) missing_or_internal

-- notifyNetmapChanged: the channel is closed and replaced
unfoldable pub notify_netmap_changed : Handler (Unit {0})
notify_netmap_changed w = pure tt (record w { wakes = w.wakes + 1 })

unfoldable pub bump_netmap : Handler ℕ
bump_netmap = do version ← internal bump_netmap_version; notify_netmap_changed; pure version

-- logEvent never fails its caller; the webhook is not modelled
unfoldable pub log_event : Text → Text → Text → ℕ → Handler (Unit {0})
log_event kind actor message now =
    catch (do add_event kind actor message now; pure tt) (λ _. pure tt)

-- withNode: the node of the bearer token, with its last-seen time refreshed as far as that succeeds
unfoldable pub with_node : {A : Type 0} → Env → Text → ℕ → (Node → Handler A) → Handler A
with_node env tok now h = do
  require (not (is_empty tok)) unauthorized
  node ← catch (node_by_auth_hash (env.sha256hex tok)) (λ _. throw unauthorized)
  catch {F = Status} (touch_node node.id now) (λ _. pure tt)
  h node

-- Server.allocateIP: the hub's address counts as used
abbrev pub allocation_or_fail : Allocation → Handler Addr
allocation_or_fail (got a) = pure a
allocation_or_fail _ = throw internal_error

unfoldable pub allocate : Env → Config → Handler Addr
allocate env cfg = do
  used ← internal allocated_ips
  allocation_or_fail
      (allocate_ip env.ip6 cfg.overlay_cidr (show_addr env.ip6 (hub_ip cfg.overlay_cidr) ∷ used))

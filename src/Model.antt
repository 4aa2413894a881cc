-- ===== src/Model.antt =====
-- The data that the coordinator stores (internal/coordinator/store/store.go) and the messages that
-- it sends to agents (internal/api/types.go). Texts are code points, times are nanoseconds since
-- the zero time, and the zero time is 0.
use home_kai.Base.{ℕ, ◌*◌, Text, codes, Bool, List}

pub record Node : Type 0 where
  pub id : Text
  pub name : Text
  pub os : Text
  pub arch : Text
  pub role : Text
  pub wg_pub_key : Text
  pub wg_listen_port : ℕ
  pub overlay_ip : Text
  pub dns_name : Text
  pub auth_secret_hash : Text
  pub created_at : ℕ
  pub last_seen : ℕ
  pub routes_advertised : List Text
  pub routes_enabled : List Text
  pub lock_sig : Text
  pub approved : Bool
  pub tags : List Text

pub record StaticPeer : Type 0 where
  pub id : Text
  pub name : Text
  pub wg_pub_key : Text
  pub wg_priv_key : Text
  pub overlay_ip : Text
  pub dns_name : Text
  pub created_at : ℕ
  pub lock_sig : Text
  pub tags : List Text

pub record Endpoint : Type 0 where
  pub node_id : Text
  pub kind : Text
  pub addr : Text
  pub updated_at : ℕ

pub record Policy : Type 0 where
  pub id : Text
  pub name : Text
  pub src_tags : List Text
  pub dst_tags : List Text
  pub protocol : Text
  pub ports : List Text
  pub enabled : Bool
  pub created_at : ℕ

pub record Publish : Type 0 where
  pub id : Text
  pub name : Text
  pub listen_port : ℕ
  pub target : Text
  pub created_at : ℕ

pub record Event : Type 0 where
  pub id : ℕ
  pub ts : ℕ
  pub kind : Text
  pub actor : Text
  pub message : Text

pub record FilterRule : Type 0 where
  pub src_cidrs : List Text
  pub protocol : Text
  pub ports : List Text

pub record ForwardRule : Type 0 where
  pub src_cidrs : List Text
  pub dst_cidrs : List Text
  pub protocol : Text
  pub ports : List Text

pub record HostEntry : Type 0 where
  pub name : Text
  pub ip : Text

pub record NetmapSelf : Type 0 where
  pub node_id : Text
  pub role : Text
  pub overlay_ip : Text
  pub overlay_cidr : Text
  pub dns_name : Text
  pub mtu : ℕ
  pub lock_public_key : Text
  pub filter_enabled : Bool

pub record Peer : Type 0 where
  pub node_id : Text
  pub hostname : Text
  pub role : Text
  pub dns_name : Text
  pub overlay_ip : Text
  pub wg_public_key : Text
  pub endpoint : Text
  pub allowed_ips : List Text
  pub keepalive_sec : ℕ
  pub candidates : List Text
  pub lock_sig : Text

pub record Netmap : Type 0 where
  pub version : ℕ
  pub self : NetmapSelf
  pub peers : List Peer
  pub hosts : List HostEntry
  pub publishes : List Publish
  pub filter_rules : List FilterRule
  pub forward_rules : List ForwardRule

abbrev pub role_hub : Text
role_hub = codes "hub"

abbrev pub role_node : Text
role_node = codes "node"

abbrev pub hosts_suffix : Text
hosts_suffix = codes ".kai"

-- nanoseconds
abbrev pub second : ℕ
second = 1000000000

abbrev pub minute : ℕ
minute = 60 * second

abbrev pub hour : ℕ
hour = 60 * minute

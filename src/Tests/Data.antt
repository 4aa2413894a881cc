-- ===== src/Tests/Data.antt =====
-- A small network: a hub, two spokes, a phone, and a policy.
use home_kai.Base.{Text, codes, text_eq, Bool, true, none, some, List, [], ◌∷◌, ◌++◌}
use home_kai.Netip.{Prefix, Ip6Text, v4}
use home_kai.Model.{Node, StaticPeer, Endpoint, Policy}
use home_kai.Agent.Lock.{Crypto}
use home_kai.Store.Exec.{EnrollToken, Db, World}
use home_kai.Server.{Env}

abbrev pub no_ip6 : Ip6Text
no_ip6 = record { show = λ n zone. codes "::"; parse = λ s. none }

-- A scheme of signatures that is good enough to compute with.
abbrev pub toy_crypto : Crypto
toy_crypto = record {
  decode = λ s. some s;
  verify = λ key message sig. text_eq sig (key ++ message);
}

abbrev pub toy_env : Env
toy_env = record { ip6 = no_ip6; crypto = toy_crypto; sha256hex = λ s. s; valid_key = λ s. true }

-- 100.64.0.0/30
abbrev pub overlay : Prefix
overlay = record { addr = v4 1681915904; bits = 30 }

abbrev pub make_node : Text → Text → Text → Text → Text → List Text → Node
make_node id role key ip os tags = record {
  id = id;
  name = id;
  os = os;
  arch = codes "amd64";
  role = role;
  wg_pub_key = key;
  wg_listen_port = 51820;
  overlay_ip = ip;
  dns_name = [];
  auth_secret_hash = id;
  created_at = 1;
  last_seen = 1;
  routes_advertised = [];
  routes_enabled = [];
  lock_sig = [];
  approved = true;
  tags = tags;
}

abbrev pub hub : Node
hub = make_node (codes "h") (codes "hub") (codes "KH") (codes "100.64.0.1") (codes "linux") []

abbrev pub laptop : Node
laptop =
    make_node (codes "a") (codes "node") (codes "KA") (codes "100.64.0.2") (codes "linux")
      (codes "dev" ∷ [])

abbrev pub server : Node
server =
    make_node (codes "b") (codes "node") (codes "KB") (codes "100.64.0.3") (codes "linux")
      (codes "srv" ∷ [])

abbrev pub network : List Node
network = hub ∷ laptop ∷ server ∷ []

abbrev pub phone : StaticPeer
phone = record {
  id = codes "p";
  name = codes "phone";
  wg_pub_key = codes "KP";
  wg_priv_key = codes "SP";
  overlay_ip = codes "100.64.0.4";
  dns_name = [];
  created_at = 1;
  lock_sig = [];
  tags = codes "dev" ∷ [];
}

abbrev pub dev_to_srv : Policy
dev_to_srv = record {
  id = codes "pol";
  name = codes "dev to srv";
  src_tags = codes "dev" ∷ [];
  dst_tags = codes "srv" ∷ [];
  protocol = codes "tcp";
  ports = codes "22" ∷ [];
  enabled = true;
  created_at = 1;
}

abbrev pub seen_endpoint : Endpoint
seen_endpoint = record {
  node_id = codes "b";
  kind = codes "local";
  addr = codes "10.0.0.7:51820";
  updated_at = 1;
}

abbrev pub any_rule : Text → List Text → Bool
any_rule protocol ports = true

abbrev pub token : EnrollToken
token = record { token_hash = codes "t"; name_hint = []; expires_at = 100; used_at = none }

abbrev pub stored : Db
stored = record {
  nodes = hub ∷ laptop ∷ [];
  tokens = token ∷ [];
  statics = [];
  endpoints = [];
  publishes = [];
  policies = [];
  events = [];
  last_event = 0;
  netmap_version = 1;
  lock_pubkey = none;
  lock_active = none;
}

abbrev pub world : World
world = record { db = stored; faults = []; wakes = 0; sessions = [] }

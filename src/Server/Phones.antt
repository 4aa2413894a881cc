-- ===== src/Server/Phones.antt =====
-- The configuration of a WireGuard app: `hubNode`, `renderStaticPeerConf` and
-- `handleStaticPeerConfig` of internal/coordinator/staticpeer.go.
use home_kai.Base.{Text, codes, Bool, Option, ◌++◌, find, if◌then◌else◌}
use home_kai.Netip.{masked, show_prefix, show_decimal}
use home_kai.Model.{Node}
use home_kai.Netmap.{is_hub, keepalive}
use home_kai.Store.Exec.{Exec, StoreErr, pure, ◌>>=◌}
use home_kai.Store.Calls.{nodes}
use home_kai.Server.{
  Config, Env, Handler, conflict, internal_error, or_fail, internal, static_peer_or_404,
}

pub record StaticPeerRequest : Type 0 where
  pub name : Text
  pub full : Bool

pub record StaticPeerConfig : Type 0 where
  pub id : Text
  pub name : Text
  pub overlay_ip : Text
  pub dns_name : Text
  pub conf : Text
  pub qr_code : Text

unfoldable pub hub_node : Exec StoreErr (Option Node)
hub_node = do ns ← nodes; pure (find is_hub ns)

-- `key = value` and the end of the line
abbrev setting : Text → Text → Text
setting key value = key ++ (codes " = " ++ (value ++ codes "\n"))

unfoldable pub render_static_peer_conf : Text → Text → Node → Text → Text → Bool → Text
render_static_peer_conf priv_key addr hub hub_endpoint overlay_cidr full =
    codes "[Interface]\n"
    ++ (setting (codes "PrivateKey") priv_key
        ++ (setting (codes "Address") (addr ++ codes "/32")
            ++ (setting (codes "DNS") (hub.overlay_ip ++ codes ", kai")
                ++ (codes "\n[Peer]\n"
                    ++ (setting (codes "PublicKey") hub.wg_pub_key
                        ++ (setting (codes "Endpoint") hub_endpoint
                            ++ (setting (codes "AllowedIPs")
                                  (if full then codes "0.0.0.0/0" else overlay_cidr)
                                ++ setting (codes "PersistentKeepalive")
                                    (show_decimal 5 keepalive))))))))

module _ (env : Env) (cfg : Config) where
  abbrev pub static_peer_conf : Text → Text → Node → Bool → Text
  static_peer_conf priv_key addr hub full =
      render_static_peer_conf priv_key addr hub cfg.hub_endpoint
        (show_prefix env.ip6 (masked cfg.overlay_cidr)) full

  -- `qr_base64` draws the code and encodes it.
  unfoldable pub handle_static_peer_config :
      (Text → Option Text) → Text → Bool → Handler StaticPeerConfig
  handle_static_peer_config qr_base64 id full = do
    sp ← static_peer_or_404 id
    found ← internal hub_node
    hub ← or_fail found conflict
    let conf = static_peer_conf sp.wg_priv_key sp.overlay_ip hub full
    qr_code ← or_fail (qr_base64 conf) internal_error
    pure (record {
      id = sp.id;
      name = sp.name;
      overlay_ip = sp.overlay_ip;
      dns_name = sp.dns_name;
      conf = conf;
      qr_code = qr_code;
    })

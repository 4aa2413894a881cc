-- ===== src/Server/Publishes.antt =====
-- internal/coordinator/publish.go: the creation and the deletion of published ports.
use home_kai.Base.{
  has_suffix, ℕ, Text, codes, Bool, false, not, ◌&&◌, ◌||◌, Option, none, some, List, [], ◌∷◌, ◌++◌,
  any, ltb, ◌==◌, is_empty,
}
use home_kai.Base.Int.{ℤ, pos, negsuc, to_ℕ}
use home_kai.Netip.{show_decimal, contains}
use home_kai.Netip.Parse.{parse_addr}
use home_kai.Model.{Publish, hosts_suffix}
use home_kai.Normalize.{port_value, port_in_range}
use home_kai.Store.Exec.{StoreErr, unique, pure, throw, catch, sql, ◌>>=◌, ◌>>◌}
use home_kai.Store.Rows.{insert_publish, delete_publish}
use home_kai.Server.{
  Config, Env, Handler, bad_request, conflict, internal_error, require, or_fail,
  missing_or_internal, bump_netmap, log_event,
}

pub record PublishRequest : Type 0 where
  pub name : Text
  pub listen_port : ℤ
  pub target : Text

-- `reservedPorts`, and the ports of the configuration
abbrev builtin_ports : List ℕ
builtin_ports = 22 ∷ 53 ∷ 80 ∷ 443 ∷ 8443 ∷ 8444 ∷ 51820 ∷ []

unfoldable pub port_reserved : List ℕ → ℕ → Bool
port_reserved extra p = any (λ q. p == q) builtin_ports || any (λ q. q == p) extra

abbrev pub listen_port_ok : ℤ → Bool
listen_port_ok (pos n) = not (ltb n 1 || ltb 65535 n)
listen_port_ok (negsuc n) = false

abbrev pub key_conflict : {A : Type 0} → StoreErr → Handler A
key_conflict unique = throw conflict
key_conflict _ = throw internal_error

module _ (env : Env) (cfg : Config) where
  -- validatePublishTarget, on the result of net.SplitHostPort
  unfoldable pub target_ok : Option (Text × Text) → Bool
  target_ok none = false
  target_ok (some (host, port)) =
      port_in_range (port_value port) && elim (parse_addr env.ip6 host) [
        | some ip ↦ contains cfg.overlay_cidr ip
        | none ↦ has_suffix host hosts_suffix
      ]

  -- `split` is net.SplitHostPort
  unfoldable pub handle_publish_create :
      (Text → Option (Text × Text)) → Option PublishRequest → Option Text → ℕ → Handler Publish
  handle_publish_create split body random_id now = do
    req ← or_fail body bad_request
    require (not (is_empty req.name)) bad_request
    require (listen_port_ok req.listen_port) bad_request
    require (not (port_reserved cfg.reserved_ports (to_ℕ req.listen_port))) conflict
    require (target_ok (split req.target)) bad_request
    id ← or_fail random_id internal_error
    let p : Publish = record {
      id = codes "pub_" ++ id;
      name = req.name;
      listen_port = to_ℕ req.listen_port;
      target = req.target;
      created_at = now;
    }
    catch (sql (insert_publish p)) key_conflict
    bump_netmap
    log_event (codes "publish.create") (codes "admin")
        (codes "публикация "
          ++ (p.name
              ++ (codes ": порт " ++ (show_decimal 5 p.listen_port ++ (codes " → " ++ p.target)))))
        now
    pure p

unfoldable pub handle_publish_delete : Text → ℕ → Handler (Unit {0})
handle_publish_delete id now = do
  catch (sql (delete_publish id)) missing_or_internal
  bump_netmap
  log_event (codes "publish.delete") (codes "admin") (codes "публикация удалена") now

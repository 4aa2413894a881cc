-- ===== src/Agent/Wgdev/Darwin/Exact.antt =====
-- SyncRoutes of internal/agent/wgdev/wgdev_darwin.go, on a `route` that does what its manual says.
use home_kai.Base.{
  ℕ, Text, codes, text_eq, elem, any, Bool, true, false, ◌&&◌, ◌≡◌, List, arith, if◌then◌else◌,
}
use home_kai.Netip.{Prefix, Ip6Text}
use home_kai.Agent.Wgdev.Routes.{wanted}
use home_kai.Agent.Wgdev.Routes.Synced.{
  Lawful, is_done, InStep, IsSynced, none_of, sync_wanted-IsSynced,
}
use home_kai.Agent.Wgdev.Darwin.{Machine, route_command, route_ops, sync_routes}

-- `owns s t`: is there a route to `t` through the interface? A command that fails changes nothing.
pub record DocumentedRoute (m : Machine) (ip6 : Ip6Text) (bytes : Text → List ℕ) (name : Text)
    : Type 0 where
  pub owns : m.State → Text → Bool
  pub deletes :
      (c t : Text) (s : m.State)
      → owns (route_command m ip6 bytes name (codes "delete") c s).1 t ≡ (
          if (route_command m ip6 bytes name (codes "delete") c s).0 && text_eq c t
          then false
          else owns s t)
  pub adds :
      (c t : Text) (s : m.State)
      → owns (route_command m ip6 bytes name (codes "add") c s).1 t ≡ (
          if (route_command m ip6 bytes name (codes "add") c s).0 && text_eq c t
          then true
          else owns s t)

module _ {m : Machine} {ip6 : Ip6Text} {bytes : Text → List ℕ} {name : Text}
    (d : DocumentedRoute m ip6 bytes name) where
  pub darwin_adds :
      (c t : Text) (s : m.State)
      → d.owns ((route_ops m ip6 bytes name).add c s).1 t ≡ (
          if is_done ((route_ops m ip6 bytes name).add c s).0 && text_eq c t
          then true
          else d.owns s t)
  darwin_adds c t s = ground (arith, d.adds c t s)

  abbrev pub darwin_laws : Lawful (route_ops m ip6 bytes name)
  darwin_laws = record {
    owns = d.owns;
    reads = λ t. true;
    deletes = λ c t s h. d.deletes c t s;
    adds = λ c t s h. darwin_adds c t s;
  }

  -- With a `route` that does what its manual says, the routes through the interface are those of
  -- the field and of the base, and where no command failed those of the field are the wanted ones.
  pub darwin_routes-IsSynced :
      (order : List Text → List Text) (base : Text → Bool) (prefixes : List Prefix)
      (routes : List Text) (s : m.State)
      → ((xs : List Text) (t : Text) → elem t (order xs) ≡ elem t xs)
      → any base (wanted ip6 prefixes) ≡ false
      → InStep darwin_laws base routes s
      → IsSynced darwin_laws base
          (wanted ip6 prefixes)
          (sync_routes m ip6 bytes order prefixes (record { name = name; routes = routes }) s)
  unfolding sync_routes
  darwin_routes-IsSynced order base prefixes routes s o w i =
      sync_wanted-IsSynced darwin_laws base order (wanted ip6 prefixes) routes s o
        (λ t e. ground (arith, none_of base t (wanted ip6 prefixes) w e)) i

-- ===== src/Agent/Wgdev/Linux/Exact.antt =====
-- SyncRoutes of internal/agent/wgdev/wgdev_linux.go as a whole, on a kernel that does what the
-- documentation of netlink says.
use home_kai.Base.{ℕ, Text, elem, any, all, Bool, true, false, some, ◌≡◌, List, arith}
use home_kai.Netip.{Prefix, Ip6Text}
use home_kai.Agent.Wgdev.Routes.{wanted}
use home_kai.Agent.Wgdev.Routes.Synced.{
  InStep, IsSynced, none_of, sync_wanted-IsSynced, sync_wanted-keeps,
}
use home_kai.Agent.Wgdev.Linux.{Netlink, LinuxDevice, route_ops, sync_routes}
use home_kai.Agent.Wgdev.Linux.Kept.{
  DocumentedRoutes, linux_laws, reads_back, others, del_others, add_others,
}
use home_kai.Agent.Wgdev.Linux.Reading.{is_ip4, wanted-reads_back}

module _ {nl : Netlink} {ip6 : Ip6Text} (d : DocumentedRoutes nl ip6) (dev : LinuxDevice)
    (order : List Text → List Text) (base : Text → Bool) (prefixes : List Prefix) (k : nl.Kernel)
    (o : (xs : List Text) (t : Text) → elem t (order xs) ≡ elem t xs)
    (ip4 : all is_ip4 prefixes ≡ true) (i : InStep (linux_laws d dev.index) base dev.routes k) where
  -- On a kernel that does what the documentation of netlink says, for IPv4 prefixes none of which
  -- is a route that the device had from the start, and whatever the order of the maps: when the
  -- routes of the device in the kernel were those from the start and those of its field, they are
  -- so after SyncRoutes, whatever it returned; and where it did not stop at an error, each wanted
  -- prefix, and no other, is in the field or was skipped as a conflict.
  pub sync_routes-IsSynced :
      any base (wanted ip6 prefixes) ≡ false
      → IsSynced
          (linux_laws d dev.index)
          base
          (wanted ip6 prefixes)
          (sync_routes nl ip6 order prefixes dev k)
  unfolding sync_routes
  sync_routes-IsSynced w =
      sync_wanted-IsSynced (linux_laws d dev.index) base order (wanted ip6 prefixes) dev.routes k o
        (λ t m.
          ground (
            arith,
            wanted-reads_back ip6 prefixes t ip4 m,
            none_of base t (wanted ip6 prefixes) w m,
          ))
        i

  -- On a kernel that does what the documentation of netlink says and that lists its routes when it
  -- is asked, for IPv4 prefixes and whatever the order of the maps: when the routes of the device
  -- in the kernel were those from the start and those of its field, SyncRoutes leaves the routes of
  -- the other links as they were, whatever it returned.
  pub other_links_kept :
      (t : Text)
      → ((p : Prefix) (j : nl.Kernel) → (links : List ℕ) × (nl.route_list p j ≡ some links))
      → others d dev.index t (sync_routes nl ip6 order prefixes dev k).kernel
        ≡ others d dev.index t k
  unfolding sync_routes
  other_links_kept t a =
      sync_wanted-keeps (route_ops nl ip6 dev.index) (reads_back ip6) (others d dev.index t)
        (λ s j h. del_others d dev.index t s j h) (λ s j h. add_others d dev.index t s j a) order
        (wanted ip6 prefixes) dev.routes k o (λ s m. wanted-reads_back ip6 prefixes s ip4 m)
        (λ s m. ground (arith, i.extra s m))

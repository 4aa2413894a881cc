-- ===== src/Hosts.antt =====
-- buildHosts of internal/coordinator/netmap.go: the names of the devices.
pub mod Labels
use home_kai.Base.{
  ℕ, zero, suc, ◌+◌, Text, codes, elem, List, [], ◌∷◌, ◌++◌, map, length, is_empty, if◌then◌else◌,
}
use home_kai.Text.{slug}
use home_kai.Netip.{show_decimal}
use home_kai.Model.{Node, StaticPeer, HostEntry, hosts_suffix}

unfoldable pub sanitize_host_label : Text → Text
sanitize_host_label s = if is_empty (slug s) then codes "device" else slug s

-- fmt.Sprintf("%s-%d", base, i)
abbrev pub numbered : Text → ℕ → Text
numbered base i = base ++ (b'-' ∷ show_decimal (i + 1) i)

-- the loop `for i := 2; used[label]; i++`
unfoldable pub free_label : ℕ → List Text → Text → ℕ → Text → Text
free_label zero used base i label = label
free_label (suc fuel) used base i label =
    let next = free_label fuel used base (i + 1) (numbered base i) in
    if elem label used then next else label

-- one call of `add`: `used` is the list of the labels given so far, the last one first
unfoldable pub add_hosts : List Text → List (Text × Text) → List HostEntry
add_hosts used [] = []
add_hosts used ((name, ip) ∷ devices) =
    let base = sanitize_host_label name in
    let label = free_label (length used + 1) used base 2 base in
    record { name = label ++ hosts_suffix; ip = ip } ∷ add_hosts (label ∷ used) devices

unfoldable pub build_hosts : List Node → List StaticPeer → List HostEntry
build_hosts nodes statics = add_hosts [] (
    map (λ (n : Node). (n.name, n.overlay_ip)) nodes
    ++ map (λ (p : StaticPeer). (p.name, p.overlay_ip)) statics)

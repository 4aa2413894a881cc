-- ===== src/Normalize.antt =====
-- The checks on what nodes and the administrator send: tags and ports
-- (internal/coordinator/acl.go), routes (internal/coordinator/routes.go) and endpoints
-- (internal/coordinator/node.go). `none` is an error, which the handlers answer with 400.
pub mod Sets
pub mod Tags
pub mod Routes
pub mod Ports
use home_kai.Base.{
  ℕ, ◌<◌, Text, text_eq, sort_texts, elem, Bool, true, false, not, ◌&&◌, ◌||◌, Option, none, some,
  List, [], ◌∷◌, ◌++◌, take, filter_map, collect_upto, collect_upto-eq-take, ◌≡◌, ltb, leb, ◌==◌,
  is_empty, if◌then◌else◌,
}
use home_kai.Text.{slug, trim_space}
use home_kai.Netip.{
  Addr, Prefix, AddrPort, Ip6Text, is4, masked, overlaps, contains, unmap, is_loopback,
  is_multicast, is_unspecified, is_link_local_unicast, show_prefix, show_addr_port,
}
use home_kai.Netip.Parse.{parse_digits, parse_prefix, parse_addr_port}

-- `seen` and `out` hold the same texts: what was seen is what was appended.
unfoldable pub add_new : Text → List Text → List Text
add_new x out = if elem x out then out else out ++ x ∷ []

-- the loop body of `normalizeTags`
unfoldable pub add_tag : Text → List Text → List Text
unfolding add_new
add_tag t out = if is_empty (slug t) then out else add_new (slug t) out

unfoldable pub add_tags : List Text → List Text → List Text
add_tags [] out = out
add_tags (t ∷ ts) out = add_tags ts (add_tag t out)

unfoldable pub normalize_tags : List Text → List Text
normalize_tags tags = sort_texts (add_tags tags [])

-- strconv.Atoi, as far as the test `n < 1 || n > 65535` can see: a sign, then digits.
unfoldable pub port_value : Text → Option ℕ
unfolding parse_digits
port_value [] = none
port_value (c ∷ s) =
    if c == b'+' then parse_digits s else if c == b'-' then none else parse_digits (c ∷ s)

abbrev pub port_in_range : Option ℕ → Bool
port_in_range none = false
port_in_range (some n) = not (ltb n 1 || ltb 65535 n)

abbrev value_or_zero : Option ℕ → ℕ
value_or_zero none = 0
value_or_zero (some n) = n

-- sort.Slice by the value; equal values keep their order here, where Go promises none
insert_port : Text → List Text → List Text
insert_port x [] = x ∷ []
insert_port x (y ∷ ys) =
    let rest = insert_port x ys in
    if leb (value_or_zero (port_value x)) (value_or_zero (port_value y))
    then x ∷ y ∷ ys
    else y ∷ rest

unfoldable pub sort_ports : List Text → List Text
unfolding insert_port port_value
sort_ports [] = []
sort_ports (x ∷ xs) = insert_port x (sort_ports xs)

unfoldable pub add_ports : List Text → List Text → Option (List Text)
add_ports [] out = some out
add_ports (p ∷ ps) out =
    let port = trim_space p in
    let skip = add_ports ps out in
    let keep_going = add_ports ps (add_new port out) in
    if is_empty port then skip else if port_in_range (port_value port) then keep_going else none

abbrev map_option : {A B : Type 0} → (A → B) → Option A → Option B
map_option f none = none
map_option f (some a) = some (f a)

unfoldable pub normalize_ports : List Text → Option (List Text)
normalize_ports ports = map_option sort_ports (add_ports ports [])

module _ (ip6 : Ip6Text) (overlay : Prefix) where
  -- The checks of `normalizeRoutes` on one prefix.
  unfoldable pub route_ok : Prefix → Bool
  route_ok p = is4 p.addr && not (p.bits == 0) && not (overlaps p overlay)

  -- The canonical form of one announced route, if it is accepted.
  unfoldable pub canonical_route : Text → Option Text
  canonical_route r = elim (parse_prefix ip6 r) [
    | none ↦ none
    | some p ↦ if route_ok p then some (show_prefix ip6 (masked p)) else none
  ]

  unfoldable pub add_routes : List Text → List Text → Option (List Text)
  add_routes [] out = some out
  add_routes (r ∷ rs) out = elim (canonical_route r) [
    | none ↦ none
    | some c ↦ add_routes rs (add_new c out)
  ]

  unfoldable pub normalize_routes : List Text → Option (List Text)
  normalize_routes routes = map_option sort_texts (add_routes routes [])

  -- The checks of `sanitizeEndpoints` on an address and its port.
  unfoldable pub dialable : AddrPort → Bool
  dialable a =
      let ip = unmap a.addr in
      not (a.port == 0)
      && not (
          is_loopback ip
          || is_multicast ip
          || is_unspecified ip
          || is_link_local_unicast ip
          || contains overlay ip)

  unfoldable pub clean_endpoint : Text → Option Text
  clean_endpoint s = elim (parse_addr_port ip6 s) [
    | none ↦ none
    | some a ↦
        if dialable a
        then some (show_addr_port ip6 (record { addr = unmap a.addr; port = a.port }))
        else none
  ]

  -- the loop of `sanitizeEndpoints`, which stops at `max` results
  unfoldable pub sanitize_endpoints : List Text → ℕ → List Text
  sanitize_endpoints addrs max = collect_upto clean_endpoint max addrs []

  -- With a bound that is not zero, sanitizeEndpoints gives the clean forms of the dialable
  -- endpoints in the order reported, the first ones up to the bound.
  pub sanitize_endpoints-eq-take :
      (addrs : List Text) (max : ℕ)
      → 0 < max
      → sanitize_endpoints addrs max ≡ take max (filter_map clean_endpoint addrs)
  unfolding sanitize_endpoints
  sanitize_endpoints-eq-take addrs max h = collect_upto-eq-take clean_endpoint addrs max h

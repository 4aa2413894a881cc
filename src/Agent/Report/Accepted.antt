-- ===== src/Agent/Report/Accepted.antt =====
-- What the coordinator (sanitizeEndpoints of internal/coordinator/node.go) does with the endpoints
-- that a node reports of itself (localEndpoints of internal/agent/hub.go).
use home_kai.Base.{
  ℕ, ◌^◌, ◌≤◌, ◌<◌, Text, Bool, true, false, not, ◌||◌, Option, none, some, ◌≡◌, refl, ap, ◌∙◌,
  List, [], ◌∷◌, ◌++◌, all, gather, take, filter_map, ltb, ◌==◌, arith, Bool-cases, inl, inr,
}
use home_kai.Netip.{
  Addr, invalid, v4, v6, Prefix, Ip6Text, unmap, is_loopback, is_multicast, is_unspecified,
  is_link_local_unicast, contains, show_addr_port,
}
use home_kai.Netip.Parse.Ports.{parse_addr_port-show_addr_port}
use home_kai.Normalize.{dialable, clean_endpoint, sanitize_endpoints, sanitize_endpoints-eq-take}
use home_kai.Agent.Report.{
  Iface, is_private, endpoint_of4, local_endpoint, addr_endpoints, iface_endpoints, local_endpoints,
  virtual_iface,
}

-- A number of 32 bits.
abbrev pub is_word4 : Addr → Bool
is_word4 (v4 n) = ltb n (2 ^ 32)
is_word4 _ = true

abbrev pub address_ok : Option Addr → Bool
address_ok none = true
address_ok (some a) = is_word4 (unmap a)

abbrev pub addresses_ok : Option (List (Option Addr)) → Bool
addresses_ok none = true
addresses_ok (some addrs) = all address_ok addrs

abbrev pub ifaces_ok : Option (List Iface) → Bool
ifaces_ok none = true
ifaces_ok (some ifaces) = all (λ (i : Iface). addresses_ok i.addrs) ifaces

module _ (ip6 : Ip6Text) (overlay : Prefix) (port : ℕ) (positive : 0 < port)
    (fits : port ≤ 65535) where
  abbrev IsClean : Text → Type 0
  IsClean s = clean_endpoint ip6 overlay s ≡ some s

  private_dialable :
      (n : ℕ)
      → is_private n ≡ true
      → contains overlay (v4 n) ≡ false
      → dialable ip6 overlay (record { addr = v4 n; port = port }) ≡ true
  unfolding dialable is_private unmap is_loopback is_multicast is_unspecified is_link_local_unicast
  private_dialable n h c = ground (arith, h, c, positive)

  shown_kept :
      (n : ℕ)
      → n < 2 ^ 32
      → is_private n ≡ true
      → contains overlay (v4 n) ≡ false
      → IsClean (show_addr_port ip6 (record { addr = v4 n; port = port }))
  unfolding clean_endpoint unmap
  shown_kept n w h c =
      rw (parse_addr_port-show_addr_port ip6 n port w fits, clean_endpoint)
        (rw (private_dialable n h c) refl)

  -- Every text of the list is kept.
  abbrev AllClean : List Text → Type 0
  AllClean [] = Unit {0}
  AllClean (x ∷ xs) = IsClean x × AllClean xs

  AllClean-append : (xs ys : List Text) → AllClean xs → AllClean ys → AllClean (xs ++ ys)
  AllClean-append [] ys h k = k
  AllClean-append (x ∷ xs) ys h k = (h.0, AllClean-append xs ys h.1 k)

  AllClean-gather {ℓ} :
      {A : Type ℓ} (ok : A → Bool) (f : A → List Text) (xs : List A)
      → ((x : A) → ok x ≡ true → AllClean (f x))
      → all ok xs ≡ true
      → AllClean (gather f xs)
  AllClean-gather ok f [] h k = tt
  AllClean-gather ok f (x ∷ xs) h k =
      AllClean-append (f x) (gather f xs) (h x (ground (arith, k)))
        (AllClean-gather ok f xs h (ground (arith, k)))

  filter_map-AllClean :
      (xs : List Text) → AllClean xs → filter_map (clean_endpoint ip6 overlay) xs ≡ xs
  filter_map-AllClean [] h = refl
  filter_map-AllClean (x ∷ xs) h = ground (arith, h.0, filter_map-AllClean xs h.1)

  endpoint_kept : (a : Addr) → is_word4 a ≡ true → AllClean (endpoint_of4 ip6 port overlay a)
  endpoint_kept invalid h = tt
  endpoint_kept (v6 n z) h = tt
  endpoint_kept (v4 n) h =
      elim (Bool-cases (is_loopback (v4 n) || not (is_private n) || contains overlay (v4 n))) [
        | inl e ↦ rw (e, endpoint_of4) tt
        | inr e ↦
            rw (e, endpoint_of4)
              (shown_kept n (ground (arith, h)) (ground (arith, e)) (ground (arith, e)), tt)
      ]

  address_kept :
      (o : Option Addr) → address_ok o ≡ true → AllClean (local_endpoint ip6 port overlay o)
  unfolding local_endpoint
  address_kept none h = tt
  address_kept (some a) h = endpoint_kept (unmap a) h

  addresses_kept :
      (o : Option (List (Option Addr)))
      → addresses_ok o ≡ true
      → AllClean (addr_endpoints ip6 port overlay o)
  addresses_kept none h = tt
  addresses_kept (some addrs) h = AllClean-gather address_ok _ addrs address_kept h

  iface_kept :
      (i : Iface) → addresses_ok i.addrs ≡ true → AllClean (iface_endpoints ip6 port overlay i)
  unfolding iface_endpoints
  iface_kept i h = elim (Bool-cases (not i.is_up || virtual_iface i.name)) [
    | inl e ↦ rw (e, iface_endpoints) tt
    | inr e ↦ rw (e, iface_endpoints) (addresses_kept i.addrs h)
  ]

  endpoints_kept :
      (o : Option (List Iface)) → ifaces_ok o ≡ true → AllClean (local_endpoints ip6 port overlay o)
  unfolding local_endpoints
  endpoints_kept none h = tt
  endpoints_kept (some ifaces) h = elim (Bool-cases (port == 0)) [
    | inl e ↦ rw (e, local_endpoints) tt
    | inr e ↦
        rw (e, local_endpoints)
          (AllClean-gather (λ (i : Iface). addresses_ok i.addrs) _ ifaces iface_kept h)
  ]

  -- With a listen port between 1 and 65535, addresses of their size and the same overlay,
  -- sanitizeEndpoints of the coordinator with a bound that is not zero keeps every endpoint that
  -- localEndpoints of a node reports, unchanged, up to the bound.
  pub reported_endpoints_kept :
      (ifaces : Option (List Iface)) (max : ℕ)
      → ifaces_ok ifaces ≡ true
      → 0 < max
      → sanitize_endpoints ip6 overlay (local_endpoints ip6 port overlay ifaces) max
        ≡ take max (local_endpoints ip6 port overlay ifaces)
  reported_endpoints_kept ifaces max h m =
      sanitize_endpoints-eq-take ip6 overlay (local_endpoints ip6 port overlay ifaces) max m
      ∙ ap (take max)
          (filter_map-AllClean (local_endpoints ip6 port overlay ifaces) (endpoints_kept ifaces h))

-- ===== src/Server/Addresses.antt =====
-- `Server.allocateIP` of internal/coordinator/ipam.go.
use home_kai.Base.{
  ℕ, ◌<◌, ◌≤◌, ◌+◌, ◌-◌, ◌*◌, ◌/◌, ◌^◌, sym, Text, elem, Bool, true, false, ◌≡◌, refl, List, [],
  ◌∷◌, ◌++◌, map,
}
use mathlib.Core.Path.{subst}
use home_kai.Netip.{Addr, v4, v6, invalid, show_addr, block4}
use home_kai.Model.{Node, StaticPeer}
use home_kai.Ipam.{Allocation, got, exhausted, unsupported, out_of_fuel, allocate_ip, hub_ip}
use home_kai.Ipam.Lowest.{IsLowestFree, allocate_ip-IsLowestFree}
use home_kai.Store.Exec.{Db, World, Result, ok, err, ◌>>=◌, catch, pure, throw, sql}
use home_kai.Store.Calls.{allocated_ips}
use home_kai.Server.{Env, Config, Status, internal_error, internal, allocate, allocation_or_fail}

module _ (env : Env) (cfg : Config) where
  -- The addresses of the hub, the nodes and the static peers.
  abbrev pub taken : Db → List Text
  taken db =
      show_addr env.ip6 (hub_ip cfg.overlay_cidr)
      ∷ (map (λ (n : Node). n.overlay_ip) db.nodes
          ++ map (λ (p : StaticPeer). p.overlay_ip) db.statics)

  -- An address that none of them has, or the status 500.
  abbrev pub IsFresh : Db → Result Status Addr → Type 0
  IsFresh db (ok a) = elem (show_addr env.ip6 a) (taken db) ≡ false
  IsFresh db (err e) = e ≡ internal_error

  allocation_or_fail-IsFresh :
      (w v : World) (low high : ℕ) (o : Allocation)
      → IsLowestFree env.ip6 (taken w.db) low high o
      → IsFresh w.db (allocation_or_fail o v).0
  unfolding pure throw
  allocation_or_fail-IsFresh w v low high (got (v4 a)) h = h.2
  allocation_or_fail-IsFresh w v low high exhausted h = refl
  allocation_or_fail-IsFresh w v low high (got invalid) h = absurd h
  allocation_or_fail-IsFresh w v low high (got (v6 n z)) h = absurd h
  allocation_or_fail-IsFresh w v low high unsupported h = absurd h
  allocation_or_fail-IsFresh w v low high out_of_fuel h = absurd h

  -- Of an IPv4 overlay of at most 32 bits, and whichever calls of the database fail,
  -- Server.allocateIP gives an address that neither the hub nor a stored node nor a static peer
  -- has, or fails with 500.
  pub allocate-IsFresh :
      (w : World) (n bits : ℕ)
      → cfg.overlay_cidr ≡ record { addr = v4 n; bits = bits }
      → n < 2 ^ 32
      → bits ≤ 32
      → IsFresh w.db (allocate env cfg w).0
  unfolding allocate ◌>>=◌ catch sql internal allocated_ips pure throw
  allocate-IsFresh w n bits e small le = go w.faults
    where
      lowest :
          (v : World)
          → IsFresh w.db
              (allocation_or_fail (allocate_ip env.ip6 cfg.overlay_cidr (taken w.db)) v).0
      lowest v =
          let k = (n / block4 bits) * block4 bits in
          allocation_or_fail-IsFresh w v k (k + block4 bits - 1)
            (allocate_ip env.ip6 cfg.overlay_cidr (taken w.db))
            (subst
              (λ c.
                IsLowestFree env.ip6 (taken w.db) k (k + block4 bits - 1)
                  (allocate_ip env.ip6 c (taken w.db)))
              (sym e) (allocate_ip-IsLowestFree env.ip6 (taken w.db) n bits small le))

      go : (f : List Bool) → IsFresh w.db (allocate env cfg (record w { faults = f })).0
      go [] = lowest (record w { faults = [] })
      go (true ∷ f) = refl
      go (false ∷ []) = lowest (record w { faults = [] })
      go (false ∷ true ∷ f) = refl
      go (false ∷ false ∷ f) = lowest (record w { faults = f })

-- ===== src/Agent/Wgdev/Routes.antt =====
-- The loops of SyncRoutes (internal/agent/wgdev/wgdev_linux.go, wgdev_darwin.go), over what one call
-- for a route does. The loops of the source range over Go maps: `order` is the order they take.
pub mod Synced
use home_kai.Base.{
  ℕ, Text, text_eq, elem, Bool, true, false, not, List, [], ◌∷◌, keep, if◌then◌else◌,
}
use home_kai.Netip.{Prefix, Ip6Text, masked, show_prefix}

-- What adding a route comes to; a route that collides with a local network is skipped.
pub data Step : Type 0 where
  done skipped failed : Step

pub record RouteOps : Type 1 where
  pub Kernel : Type 0
  pub del : Text → Kernel → Bool × Kernel
  pub add : Text → Kernel → Step × Kernel

-- The keys of the map `want`.
unfoldable pub wanted : Ip6Text → List Prefix → List Text
wanted ip6 [] = []
wanted ip6 (p ∷ ps) =
    let rest = wanted ip6 ps in
    let s = show_prefix ip6 (masked p) in if elem s rest then rest else s ∷ rest

abbrev pub untrack : Text → List Text → List Text
untrack s routes = keep (λ t. not (text_eq s t)) routes

-- `routes` is the field of the device; `finished` is false where the loop returned an error.
pub record Progress (Kernel : Type 0) : Type 0 where
  pub finished : Bool
  pub routes : List Text
  pub conflicts : List Text
  pub kernel : Kernel

module _ (ops : RouteOps) where
  open ops use {Kernel, del, add}

  unfoldable pub delete_stale : List Text → List Text → List Text → Kernel → Progress Kernel
  delete_stale want [] routes k = record {
    finished = true;
    routes = routes;
    conflicts = [];
    kernel = k;
  }
  delete_stale want (s ∷ ss) routes k = elim (elem s want) [
    | true ↦ delete_stale want ss routes k
    | false ↦ elim (del s k).0 [
      | true ↦ delete_stale want ss (untrack s routes) (del s k).1
      | false ↦ record { finished = false; routes = routes; conflicts = []; kernel = (del s k).1 }
    ]
  ]

  unfoldable pub add_missing : List Text → List Text → List Text → Kernel → Progress Kernel
  add_missing [] routes conflicts k = record {
    finished = true;
    routes = routes;
    conflicts = conflicts;
    kernel = k;
  }
  add_missing (s ∷ ss) routes conflicts k = elim (elem s routes) [
    | true ↦ add_missing ss routes conflicts k
    | false ↦ elim (add s k).0 [
      | done ↦ add_missing ss (s ∷ routes) conflicts (add s k).1
      | skipped ↦ add_missing ss routes (s ∷ conflicts) (add s k).1
      | failed ↦ record {
        finished = false;
        routes = routes;
        conflicts = conflicts;
        kernel = (add s k).1;
      }
    ]
  ]

  unfoldable pub sync_wanted :
      (List Text → List Text) → List Text → List Text → Kernel → Progress Kernel
  sync_wanted order want routes k =
      let p = delete_stale want (order routes) routes k in
      elim p.finished [ true ↦ add_missing (order want) p.routes [] p.kernel | false ↦ p ]

-- ===== src/Agent/Wgdev/Linux/Startup.antt =====
-- Bringing the device of internal/agent/wgdev/wgdev_linux.go up, where a call of the kernel fails.
use home_kai.Base.{
  ℕ, Bool, true, false, Option, none, some, ◌≡◌, ◌∙◌, List, [], ◌∷◌, ltb, if◌then◌else◌, arith,
}
use home_kai.Agent.Wgdev.{DeviceConfig}
use home_kai.Agent.Wgdev.Linux.{
  Netlink, run_steps, device_steps, brought_up, with_wg, with_link, platform_up,
}

-- Deleting the link leaves none, and adding one that fails adds none.
pub record DocumentedLinks (nl : Netlink) : Type 0 where
  pub deleted : (k : nl.Kernel) → nl.link_exists (nl.link_del k).1 ≡ false
  pub not_added :
      (mtu : Option ℕ) (k : nl.Kernel)
      → (nl.link_add mtu k).0 ≡ none
      → nl.link_exists (nl.link_add mtu k).1 ≡ nl.link_exists k

module _ {nl : Netlink} (d : DocumentedLinks nl) where
  run_steps_fails :
      (fs : List (nl.Kernel → Bool × nl.Kernel)) (k : nl.Kernel)
      → (run_steps nl fs k).0 ≡ false
      → nl.link_exists (run_steps nl fs k).1 ≡ false
  unfolding run_steps
  run_steps_fails [] k h = ground (arith, h)
  run_steps_fails (f ∷ fs) k h =
      ground (arith, h, run_steps_fails fs (f k).1, d.deleted (nl.close_wg (f k).1).1)

  brought_up_fails :
      (index : ℕ) (r : Bool × nl.Kernel)
      → (r.0 ≡ false → nl.link_exists r.1 ≡ false)
      → (brought_up nl index r).0 ≡ none
      → nl.link_exists (brought_up nl index r).1 ≡ false
  brought_up_fails index (true, k) f h = cc
  brought_up_fails index (false, k) f h = f (cc)

  with_wg_fails :
      (cfg : DeviceConfig) (index : ℕ) (r : Bool × nl.Kernel)
      → (with_wg nl cfg index r).0 ≡ none
      → nl.link_exists (with_wg nl cfg index r).1 ≡ false
  with_wg_fails cfg index (false, k) h = d.deleted k
  with_wg_fails cfg index (true, k) h =
      brought_up_fails index (run_steps nl (device_steps nl cfg index) k)
        (run_steps_fails (device_steps nl cfg index) k) h

  with_link_fails :
      (cfg : DeviceConfig) (r : Option ℕ × nl.Kernel)
      → (r.0 ≡ none → nl.link_exists r.1 ≡ false)
      → (with_link nl cfg r).0 ≡ none
      → nl.link_exists (with_link nl cfg r).1 ≡ false
  with_link_fails cfg (none, k) f h = f (cc)
  with_link_fails cfg (some index, k) f h = with_wg_fails cfg index (nl.open_wg k) h

  -- Where deleting the link leaves none, and adding it does not add one when it fails, a device
  -- that does not come up leaves no link behind, whichever call failed and whatever was there
  -- before.
  pub failed_up_leaves_no_link :
      (cfg : DeviceConfig) (k : nl.Kernel)
      → (platform_up nl cfg k).0 ≡ none
      → nl.link_exists (platform_up nl cfg k).1 ≡ false
  unfolding platform_up
  failed_up_leaves_no_link cfg k h =
      let clear = if nl.link_exists k then (nl.link_del k).1 else k in
      let mtu = if ltb 0 cfg.mtu then some cfg.mtu else none in
      with_link_fails cfg (nl.link_add mtu clear)
        (λ e. d.not_added mtu clear e ∙ ground (arith, d.deleted k)) h

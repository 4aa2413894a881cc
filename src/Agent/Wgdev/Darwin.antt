-- ===== src/Agent/Wgdev/Darwin.antt =====
-- internal/agent/wgdev/wgdev_darwin.go: wireguard-go in the process, with ifconfig and route. Those
-- are the parameter `Machine`; `bytes` gives the bytes of a key.
pub mod Exact
use home_kai.Base.{
  ℕ, ◌+◌, ◌/◌, Text, codes, Bool, true, false, Option, none, some, List, [], ◌∷◌, ◌++◌, map, gather,
  ltb, is_empty, if◌then◌else◌,
}
use home_kai.Netip.{Addr, Prefix, Ip6Text, masked, show_addr, show_prefix, show_decimal}
use home_kai.Model.{second}
use home_kai.Agent.Compose.{PeerConfig}
use home_kai.Agent.Probe.{PeerStatus}
use home_kai.Agent.Wgdev.{DeviceConfig}
use home_kai.Agent.Wgdev.Routes.{Step, done, failed, RouteOps, Progress, wanted, sync_wanted}
use home_kai.Agent.Wgdev.Uapi.{parse_uapi_peers}
use home_kai.Agent.Wgdev.Uapi.Hex.{hex_encode}

-- `create_tun` gives the name of the interface; `run` takes a command with its arguments.
pub record Machine : Type 1 where
  pub State : Type 0
  pub create_tun : ℕ → State → Option Text × State
  pub ipc_set : Text → State → Bool × State
  pub ipc_get : State → Option Text
  pub up : State → Bool × State
  pub close : State → State
  pub run : List Text → State → Bool × State

pub record DarwinDevice : Type 0 where
  pub name : Text
  pub routes : List Text

abbrev newline : Text
newline = 10 ∷ []

abbrev line : Text → Text → Text
line name value = name ++ (value ++ newline)

-- The decimal text of a number; one of 63 bits has 19 digits at most.
abbrev decimal : ℕ → Text
decimal n = show_decimal 19 n

unfoldable pub private_key_line : (Text → List ℕ) → Text → Text
private_key_line bytes key = line (codes "private_key=") (hex_encode (bytes key))

module _ (m : Machine) (ip6 : Ip6Text) (bytes : Text → List ℕ) where
  open m use {State}

  unfoldable pub device_lines : DeviceConfig → Text
  unfolding private_key_line
  device_lines cfg =
      private_key_line bytes cfg.private_key
      ++ (if ltb 0 cfg.listen_port
          then line (codes "listen_port=") (decimal cfg.listen_port)
          else [])

  abbrev setup_commands : DeviceConfig → Text → List (List Text)
  setup_commands cfg name =
      let addr = show_addr ip6 cfg.address in
      (codes "ifconfig"
        ∷ name
        ∷ codes "inet"
        ∷ addr
        ∷ addr
        ∷ codes "netmask"
        ∷ codes "255.255.255.255"
        ∷ codes "up"
        ∷ [])
      ∷ (codes "route"
          ∷ codes "-q"
          ∷ codes "-n"
          ∷ codes "add"
          ∷ codes "-inet"
          ∷ show_prefix ip6 (masked cfg.overlay_net)
          ∷ codes "-interface"
          ∷ name
          ∷ [])
      ∷ []

  -- Steps of which one that fails closes the device.
  unfoldable pub run_steps : List (State → Bool × State) → State → Bool × State
  run_steps [] s = (true, s)
  run_steps (f ∷ fs) s = elim (f s).0 [
    | true ↦ run_steps fs (f s).1
    | false ↦ (false, m.close (f s).1)
  ]

  abbrev brought_up : Text → Bool × State → Option DarwinDevice × State
  brought_up name (true, s) = (some (record { name = name; routes = [] }), s)
  brought_up name (false, s) = (none, s)

  abbrev with_tun : DeviceConfig → Option Text × State → Option DarwinDevice × State
  with_tun cfg (none, s) = (none, s)
  with_tun cfg (some name, s) =
      brought_up name
        (run_steps (m.ipc_set (device_lines cfg) ∷ m.up ∷ map m.run (setup_commands cfg name)) s)

  unfoldable pub platform_up : DeviceConfig → State → Option DarwinDevice × State
  platform_up cfg s = with_tun cfg (m.create_tun cfg.mtu s)

  unfoldable pub route_command : Text → Text → Text → State → Bool × State
  route_command name verb cidr = m.run (
      codes "route"
      ∷ codes "-q"
      ∷ codes "-n"
      ∷ verb
      ∷ codes "-inet"
      ∷ cidr
      ∷ codes "-interface"
      ∷ name
      ∷ [])

  abbrev route_added : Bool × State → Step × State
  route_added (ok, s) = (if ok then done else failed, s)

  abbrev pub route_ops : Text → RouteOps
  route_ops name = record {
    Kernel = State;
    del = λ cidr. route_command name (codes "delete") cidr;
    add = λ cidr s. route_added (route_command name (codes "add") cidr s);
  }

  unfoldable pub sync_routes :
      (List Text → List Text) → List Prefix → DarwinDevice → State → Progress State
  sync_routes order prefixes d s =
      sync_wanted (route_ops d.name) order (wanted ip6 prefixes) d.routes s

  -- the lines of one peer; `none` is an endpoint that cannot be resolved
  abbrev endpoint_line : (Text → Option Text) → Text → Option Text
  endpoint_line resolve [] = some []
  endpoint_line resolve (c ∷ s) = elim (resolve (c ∷ s)) [
    | none ↦ none
    | some ua ↦ some (line (codes "endpoint=") ua)
  ]

  unfoldable pub peer_lines : (Text → Option Text) → PeerConfig → Option Text
  peer_lines resolve p = elim (endpoint_line resolve p.endpoint) [
    | none ↦ none
    | some endpoint ↦ some (
        line (codes "public_key=") (hex_encode (bytes p.public_key))
        ++ (endpoint
            ++ ((if ltb 0 p.keepalive
                  then line (codes "persistent_keepalive_interval=")
                      (decimal (p.keepalive / second))
                  else [])
                ++ (line (codes "replace_allowed_ips=true") []
                    ++ gather (λ pfx. line (codes "allowed_ip=") (show_prefix ip6 (masked pfx)))
                        p.allowed_ips))))
  ]

  unfoldable pub all_peer_lines : (Text → Option Text) → List PeerConfig → Option Text
  all_peer_lines resolve [] = some []
  all_peer_lines resolve (p ∷ ps) = elim (peer_lines resolve p) [
    | none ↦ none
    | some lines ↦ elim (all_peer_lines resolve ps) [
      | none ↦ none
      | some rest ↦ some (lines ++ rest)
    ]
  ]

  unfoldable pub apply_peers : (Text → Option Text) → List PeerConfig → State → Bool × State
  apply_peers resolve peers s = elim (all_peer_lines resolve peers) [
    | none ↦ (false, s)
    | some lines ↦ m.ipc_set (line (codes "replace_peers=true") [] ++ lines) s
  ]

  unfoldable pub set_private_key : Text → State → Bool × State
  unfolding private_key_line
  set_private_key key s = m.ipc_set (private_key_line bytes key) s

  unfoldable pub read_statuses : (List ℕ → Text) → State → Option (List PeerStatus)
  read_statuses encode s = elim (m.ipc_get s) [
    | none ↦ none
    | some raw ↦ parse_uapi_peers encode raw
  ]

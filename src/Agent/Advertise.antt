-- ===== src/Agent/Advertise.antt =====
-- The flag --advertise-routes: `parseRoutesFlag` of cmd/kai-agent/main.go. A flag that it cannot
-- read, which ends the command, is `none`.
use home_kai.Base.{Text, Option, none, some, List, [], ◌∷◌}
use home_kai.Text.{fields}
use home_kai.Netip.{Ip6Text, masked, show_prefix}
use home_kai.Netip.Parse.{parse_prefix}

module _ (ip6 : Ip6Text) where
  unfoldable pub parse_routes : List Text → Option (List Text)
  parse_routes [] = some []
  parse_routes (part ∷ parts) =
      let rest = parse_routes parts in
      elim (parse_prefix ip6 part) [
        | none ↦ none
        | some p ↦ elim rest [ none ↦ none | some out ↦ some (show_prefix ip6 (masked p) ∷ out) ]
      ]

  unfoldable pub parse_routes_flag : Text → Option (List Text)
  parse_routes_flag s = parse_routes (fields s)

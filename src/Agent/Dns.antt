-- ===== src/Agent/Dns.antt =====
-- internal/agent/dnsproxy.go: the resolver of the hub. Messages of a public resolver, and what an
-- exchange with one gives, are parameters; so is unicode.ToLower.
pub mod Names
use home_kai.Base.{
  ℕ, Text, codes, text_eq, has_suffix, Bool, true, false, Option, none, some, List, [], ◌∷◌, ◌++◌,
  map, ◌==◌, if◌then◌else◌,
}
use home_kai.Netip.{Addr, Ip6Text}
use home_kai.Netip.Parse.{parse_addr}
use home_kai.Model.{HostEntry, hosts_suffix}

-- The parts of dns.Question that the proxy reads.
pub record Question : Type 0 where
  pub name : Text
  pub qtype : ℕ

-- dns.TypeA
abbrev pub type_a : ℕ
type_a = 1

-- The messages that the proxy writes: of its own zone, authoritative, with the error of an unknown
-- name, one address or nothing; what a public resolver said; or the failure of all of them.
pub data Reply (M : Type 0) : Type 0 where
  name_error : Reply M
  address : (name : Text) (ttl : ℕ) (ip : Addr) → Reply M
  no_data : Reply M
  relayed : M → Reply M
  server_failure : Reply M

-- A Go map from names to addresses: the entry written last is the first one here.
abbrev pub Records : Type 0
Records = List (Text × Addr)

unfoldable pub lookup : Text → Records → Option Addr
lookup name [] = none
lookup name ((key, ip) ∷ recs) =
    let rest = lookup name recs in if text_eq key name then some ip else rest

abbrev pub dns_upstreams : List Text
dns_upstreams = codes "1.1.1.1:53" ∷ codes "8.8.8.8:53" ∷ []

-- the name of a record: the host's, lower-cased, with the root's dot
abbrev pub record_name : (ℕ → ℕ) → Text → Text
record_name lower name = map lower name ++ (b'.' ∷ [])

module _ (lower : ℕ → ℕ) (ip6 : Ip6Text) where
  abbrev pub add_record : Records → HostEntry → Records
  add_record recs h = elim (parse_addr ip6 h.ip) [
    | none ↦ recs
    | some ip ↦ (record_name lower h.name, ip) ∷ recs
  ]

  -- the loop of `setHosts`
  unfoldable pub add_records : Records → List HostEntry → Records
  add_records recs [] = recs
  add_records recs (h ∷ hosts) = add_records (add_record recs h) hosts

  unfoldable pub set_hosts : List HostEntry → Records
  set_hosts hosts = add_records [] hosts

module _ {M : Type 0} where
  unfoldable pub answer_kai : Records → Question → Text → Reply M
  answer_kai recs q name = elim (lookup name recs) [
    | none ↦ name_error
    | some ip ↦ if q.qtype == type_a then address q.name 300 ip else no_data
  ]

  abbrev first_reply : (Text → Option M) → List Text → Reply M
  first_reply exchange [] = server_failure
  first_reply exchange (up ∷ ups) = elim (exchange up) [
    | none ↦ first_reply exchange ups
    | some m ↦ relayed m
  ]

  -- `exchange tcp up` asks a resolver over the transport that the client used.
  unfoldable pub forward : (Bool → Text → Option M) → Bool → Reply M
  forward exchange tcp = first_reply (exchange tcp) dns_upstreams

  module _ (lower : ℕ → ℕ) where
    -- A request without a question is not answered.
    unfoldable pub handle :
        Records → (Bool → Text → Option M) → Bool → List Question → Option (Reply M)
    handle recs exchange tcp [] = none
    handle recs exchange tcp (q ∷ qs) =
        let name = map lower q.name in
        some (
          if has_suffix name (hosts_suffix ++ (b'.' ∷ []))
          then answer_kai recs q name
          else forward exchange tcp)

-- ===== src/Agent/Dns/Names.antt =====
-- The names of internal/coordinator/netmap.go at the resolver of internal/agent/dnsproxy.go.
use home_kai.Base.{
  ℕ, zero, suc, ◌+◌, ◌%◌, ◌/◌, ◌<◌, Text, text_eq, text_eq_iff, text_eq_refl, text_eq_comm, elem,
  is_nodup, has_suffix, has_suffix-append, Bool, true, false, ◌&&◌, ◌||◌, Option, none, some, ◌≡◌,
  refl, sym, ap, ◌∙◌, List, [], ◌∷◌, ◌++◌, map, all, all-append, get_elem?, length, leb, ltb, ◌==◌,
  arith, if◌then◌else◌, Bool-cases, Option-cases, inl, inr,
}
use home_kai.Text.{dash, is_alnum, slug}
use home_kai.Text.Slug.{is_label_from, slug-is_label}
use home_kai.Netip.{Addr, Ip6Text, show_decimal}
use home_kai.Netip.Parse.{parse_addr}
use home_kai.Model.{Node, StaticPeer, HostEntry, hosts_suffix}
use home_kai.Hosts.{sanitize_host_label, numbered, free_label, add_hosts, build_hosts}
use home_kai.Hosts.Labels.{host_names, same_suffix, build_hosts-is_nodup}
use home_kai.Agent.Dns.{
  Question, type_a, address, Records, lookup, record_name, add_record, add_records, set_hosts,
  answer_kai, handle,
}

-- The code points of the names that the coordinator gives.
abbrev is_host_char : ℕ → Bool
is_host_char c = is_alnum c || c == dash || c == b'.'

some_inj : {x y : HostEntry} → some x ≡ some y → y ≡ x
some_inj {x = x} p = ap (λ o. elim o [ none ↦ x | some z ↦ z ]) (sym p)

-- unicode.ToLower on ASCII
abbrev pub LowersAscii : (ℕ → ℕ) → Type 0
LowersAscii lower = (c : ℕ) → c < 128 → lower c ≡ (if leb b'A' c && leb c b'Z' then c + 32 else c)

label_chars : (start : Bool) (s : Text) → is_label_from start s ≡ true → all is_host_char s ≡ true
label_chars start [] h = refl
label_chars start (c ∷ s) h = ground (arith, label_chars true s, label_chars false s)

show_decimal_chars : (fuel n : ℕ) → all is_host_char (show_decimal fuel n) ≡ true
unfolding show_decimal
show_decimal_chars zero n = refl
show_decimal_chars (suc fuel) n = elim (Bool-cases (ltb n 10)) [
  | inl e ↦ rw e (ground arith)
  | inr e ↦ rw e (
      all-append is_host_char (show_decimal fuel (n / 10)) ((48 + n % 10) ∷ [])
      ∙ ground (arith, show_decimal_chars fuel (n / 10)))
]

numbered_chars :
    (base : Text) (i : ℕ) → all is_host_char base ≡ true → all is_host_char (numbered base i) ≡ true
numbered_chars base i h =
    all-append is_host_char base (b'-' ∷ show_decimal (i + 1) i)
    ∙ ground (arith, h, show_decimal_chars (i + 1) i)

base_chars : (s : Text) → all is_host_char (sanitize_host_label s) ≡ true
unfolding sanitize_host_label
base_chars s = ground (arith, label_chars true (slug s), slug-is_label s)

free_label_chars :
    (fuel : ℕ) (used : List Text) (base : Text) (i : ℕ) (label : Text)
    → all is_host_char base ≡ true
    → all is_host_char label ≡ true
    → all is_host_char (free_label fuel used base i label) ≡ true
unfolding free_label
free_label_chars zero used base i label h k = k
free_label_chars (suc fuel) used base i label h k =
    ground
      (arith, free_label_chars fuel used base (i + 1) (numbered base i) h (numbered_chars base i h))

-- Every name is a label of such code points, and the suffix.
abbrev is_host_name : Text → Bool
is_host_name name = all is_host_char name && has_suffix name hosts_suffix

abbrev has_host_name : HostEntry → Bool
has_host_name h = is_host_name h.name

add_hosts_names :
    (used : List Text) (devices : List (Text × Text))
    → all has_host_name (add_hosts used devices) ≡ true
unfolding add_hosts
add_hosts_names used [] = refl
add_hosts_names used ((name, ip) ∷ devices) =
    let base = sanitize_host_label name in
    let label = free_label (length used + 1) used base 2 base in
    ground (
      arith,
      all-append is_host_char label hosts_suffix,
      free_label_chars (length used + 1) used base 2 base (base_chars name) (base_chars name),
      has_suffix-append label hosts_suffix,
      add_hosts_names (label ∷ used) devices,
    )

build_hosts_names :
    (nodes : List Node) (statics : List StaticPeer)
    → all has_host_name (build_hosts nodes statics) ≡ true
unfolding build_hosts
build_hosts_names nodes statics = add_hosts_names [] (
    map (λ (n : Node). (n.name, n.overlay_ip)) nodes
    ++ map (λ (p : StaticPeer). (p.name, p.overlay_ip)) statics)

has_suffix-append_both :
    (s suffix rest : Text)
    → has_suffix s suffix ≡ true
    → has_suffix (s ++ rest) (suffix ++ rest) ≡ true
unfolding has_suffix
has_suffix-append_both [] [] rest h = has_suffix-append [] rest
has_suffix-append_both [] (d ∷ suffix) rest h = ground (arith, text_eq_iff [] (d ∷ suffix))
has_suffix-append_both (c ∷ s) suffix rest h =
    ground (arith, same_suffix (c ∷ s) suffix rest, has_suffix-append_both s suffix rest)

module _ (lower : ℕ → ℕ) (ascii : LowersAscii lower) where
  lower_self : (name : Text) → all is_host_char name ≡ true → map lower name ≡ name
  lower_self [] h = refl
  lower_self (c ∷ name) h =
      let same : lower c ≡ c = ground (arith, ascii c) in
      let rest : map lower name ≡ name = lower_self name (ground (arith, h)) in rw (same, rest) refl

  record_name_eq :
      (key name : Text)
      → all is_host_char name ≡ true
      → text_eq (record_name lower name) (key ++ (b'.' ∷ [])) ≡ text_eq name key
  record_name_eq key name h = rw (lower_self name h) (same_suffix name key (b'.' ∷ []))

  module _ (ip6 : Ip6Text) where
    -- A record stays when another name is added, and while no later host has its name.
    other_record_stays :
        (key : Text) (recs : Records) (x : HostEntry)
        → has_host_name x ≡ true
        → text_eq x.name key ≡ false
        → lookup (key ++ (b'.' ∷ [])) (add_record lower ip6 recs x)
          ≡ lookup (key ++ (b'.' ∷ [])) recs
    unfolding lookup
    other_record_stays key recs x h k = elim (Option-cases (parse_addr ip6 x.ip)) [
      | inl e ↦ rw (e, lookup) refl
      | inr (ip, e) ↦ rw (e, lookup) (ground (arith, record_name_eq key x.name))
    ]

    record_stays :
        (key : Text) (recs : Records) (hosts : List HostEntry)
        → all has_host_name hosts ≡ true
        → elem key (host_names hosts) ≡ false
        → lookup (key ++ (b'.' ∷ [])) (add_records lower ip6 recs hosts)
          ≡ lookup (key ++ (b'.' ∷ [])) recs
    unfolding add_records
    record_stays key recs [] h k = refl
    record_stays key recs (x ∷ hosts) h k =
        record_stays key (add_record lower ip6 recs x) hosts (ground (arith, h)) (ground (arith, k))
        ∙ other_record_stays key recs x (ground (arith, h))
            (ground (arith, k, text_eq_comm key x.name))

    own_record :
        (recs : Records) (x : HostEntry) (ip : Addr)
        → has_host_name x ≡ true
        → parse_addr ip6 x.ip ≡ some ip
        → lookup (x.name ++ (b'.' ∷ [])) (add_record lower ip6 recs x) ≡ some ip
    unfolding lookup
    own_record recs x ip h e =
        rw (e, lookup) (ground (arith, record_name_eq x.name x.name, text_eq_refl x.name))

    record_found :
        (hosts : List HostEntry) (i : ℕ) (recs : Records) (x : HostEntry) (ip : Addr)
        → all has_host_name hosts ≡ true
        → is_nodup (host_names hosts) ≡ true
        → get_elem? hosts i ≡ some x
        → parse_addr ip6 x.ip ≡ some ip
        → lookup (x.name ++ (b'.' ∷ [])) (add_records lower ip6 recs hosts) ≡ some ip
    unfolding add_records is_nodup
    record_found [] i recs x ip h k g e = ground arith
    record_found (y ∷ hosts) zero recs x ip h k g e =
        let same : x ≡ y = some_inj g in
        rw same (
          record_stays y.name (add_record lower ip6 recs y) hosts (ground (arith, h))
            (ground (arith, k))
          ∙ own_record recs y ip (ground (arith, h)) (rw (sym same) e))
    record_found (y ∷ hosts) (suc i) recs x ip h k g e =
        record_found hosts i (add_record lower ip6 recs y) x ip (ground (arith, h))
          (ground (arith, k)) g e

    named_at :
        (hosts : List HostEntry) (i : ℕ) (x : HostEntry)
        → all has_host_name hosts ≡ true
        → get_elem? hosts i ≡ some x
        → has_host_name x ≡ true
    named_at [] i x h g = ground arith
    named_at (y ∷ hosts) zero x h g = rw (some_inj g) (ground (arith, h))
    named_at (y ∷ hosts) (suc i) x h g = named_at hosts i x (ground (arith, h)) g

    -- With a lower-casing that is that of ASCII on ASCII: whatever the devices are called, a
    -- request for the address of one of the names of buildHosts, in any letter case, is answered
    -- with the address of that entry, when it parses, and no resolver is asked.
    pub host_resolves :
        {M : Type 0} (exchange : Bool → Text → Option M) (tcp : Bool) (nodes : List Node)
        (statics : List StaticPeer) (i : ℕ) (x : HostEntry) (ip : Addr) (asked : Text)
        (rest : List Question)
        → get_elem? (build_hosts nodes statics) i ≡ some x
        → parse_addr ip6 x.ip ≡ some ip
        → map lower asked ≡ x.name ++ (b'.' ∷ [])
        → handle lower
            (set_hosts lower ip6 (build_hosts nodes statics))
            exchange
            tcp
            (record { name = asked; qtype = type_a } ∷ rest)
          ≡ some (address asked 300 ip)
    unfolding handle answer_kai set_hosts
    host_resolves exchange tcp nodes statics i x ip asked rest g e a =
        let hosts = build_hosts nodes statics in
        let named = build_hosts_names nodes statics in
        let found = record_found hosts i [] x ip named (build_hosts-is_nodup nodes statics) g e in
        let ends : has_suffix x.name hosts_suffix ≡ true =
          ground (arith, named_at hosts i x named g) in
        rw (a, has_suffix-append_both x.name hosts_suffix (b'.' ∷ []) ends, answer_kai, found) refl

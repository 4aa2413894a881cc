-- ===== src/Agent/Filterspec/Verdicts.antt =====
-- How iptables reads the rules of internal/agent/filterspec.go for a packet: a rule whose tests all hold decides, and the first that does is taken.
use home_kai.Base.{
  Text, codes, text_eq, elem, Bool, true, false, not, ◌&&◌, ◌||◌, ◌≡◌, refl, ap, ◌∙◌, Option, none,
  some, List, [], ◌∷◌, ◌++◌, map, any, all, gather, any-append, any-map, any_congr, any-and,
  all-append, all_weaken, length, is_empty, leb, arith, if◌then◌else◌,
}
use mathlib.Core.List.{append_assoc}
use home_kai.Text.{comma, join_csv, split_on}
use home_kai.Text.Csv.{is_entry, split_on-join_csv}
use home_kai.Agent.Filterspec.{
  Spec, chunks, multiport, multiport_args, proto_port_args, established, drop_all, accept,
}
use home_kai.Agent.Filterspec.Chains.{port_chunks}

-- What a rule can ask of a packet: whether its addresses lie in a range, its protocol, the text of
-- its destination port, and whether it belongs to a known flow.
pub record Packet : Type 0 where
  pub from : Text → Bool
  pub to : Text → Bool
  pub protocol : Text
  pub port : Text
  pub known_flow : Bool

-- The target of a rule, if its tests hold; `m` is the outcome of the tests so far.
pub judge : Packet → Bool → Spec → Option Bool
judge p m [] = none
judge p m (flag ∷ []) = none
judge p m (flag ∷ arg ∷ rest) =
    let go = λ (t : Bool). judge p t rest in
    if text_eq flag (codes "-j")
    then (if m then some (text_eq arg (codes "ACCEPT")) else none)
    else if text_eq flag (codes "-s")
    then go (m && p.from arg)
    else if text_eq flag (codes "-d")
    then go (m && p.to arg)
    else if text_eq flag (codes "-p")
    then go (m && text_eq p.protocol arg)
    else if text_eq flag (codes "--dports")
    then go (m && elem p.port (split_on comma arg))
    else if text_eq flag (codes "--ctstate")
    then go (m && p.known_flow)
    else go m

-- The verdict of a chain: `none` falls through to the chain that jumped to it.
abbrev pub verdict : Packet → List Spec → Option Bool
verdict p [] = none
verdict p (s ∷ ss) =
    let rest = verdict p ss in elim (judge p true s) [ none ↦ rest | some v ↦ some v ]

-- Do the protocol and the ports of a rule admit the packet?
abbrev pub proto_ok : Packet → Text → List Text → Bool
proto_ok p protocol ports =
    if is_empty protocol || text_eq protocol (codes "any")
    then true
    else if text_eq protocol (codes "icmp")
    then text_eq p.protocol (codes "icmp")
    else if text_eq protocol (codes "tcp") || text_eq protocol (codes "udp")
    then text_eq p.protocol protocol && (is_empty ports || elem p.port ports)
    else false

abbrev pub is_accept : Option Bool → Bool
is_accept none = false
is_accept (some b) = b

abbrev pub is_drop : Option Bool → Bool
is_drop none = false
is_drop (some b) = not b

-- The rest of a rule behind its source and destination.
abbrev pub tail_of : Spec → Spec
tail_of pp = pp ++ codes "-j" ∷ codes "ACCEPT" ∷ []

judge_failed : (p : Packet) (s : Spec) → judge p false s ≡ none
unfolding judge
judge_failed p [] = refl
judge_failed p (flag ∷ []) = refl
judge_failed p (flag ∷ arg ∷ rest) = ground (arith, judge_failed p rest)

module _ (p : Packet) where
  -- The rules of a list that accept.
  abbrev pub accepts : Spec → Bool
  accepts s = is_accept (judge p true s)

  abbrev pub drops : Spec → Bool
  drops s = is_drop (judge p true s)

  pub verdict-append :
      (xs ys : List Spec)
      → any drops xs ≡ false
      → verdict p (xs ++ ys) ≡ (if any accepts xs then some true else verdict p ys)
  verdict-append [] ys h = refl
  verdict-append (x ∷ xs) ys h = ground (arith, verdict-append xs ys)

  pub judge_source :
      (src : Text) (rest : Spec)
      → judge p true (codes "-s" ∷ src ∷ rest) ≡ (if p.from src then judge p true rest else none)
  unfolding judge text_eq
  judge_source src rest = ground (arith, judge_failed p rest)

  pub judge_destination :
      (dst : Text) (rest : Spec)
      → judge p true (codes "-d" ∷ dst ∷ rest) ≡ (if p.to dst then judge p true rest else none)
  unfolding judge text_eq
  judge_destination dst rest = ground (arith, judge_failed p rest)

  judge_bare : judge p true (tail_of []) ≡ some true
  unfolding judge text_eq
  judge_bare = refl

  judge_protocol :
      (x : Text)
      → judge p true (tail_of (codes "-p" ∷ x ∷ []))
        ≡ (if text_eq p.protocol x then some true else none)
  unfolding judge text_eq
  judge_protocol x = ground arith

  judge_ports :
      (x csv : Text)
      → judge p true
          (tail_of (codes "-p" ∷ x ∷ codes "-m" ∷ codes "multiport" ∷ codes "--dports" ∷ csv ∷ []))
        ≡ (if text_eq p.protocol x && elem p.port (split_on comma csv) then some true else none)
  unfolding judge text_eq
  judge_ports x csv = ground arith

  -- The matcher of a list of ports, chunk by chunk.
  any-chunk :
      (cs : List (List Text))
      → all (λ c. not (is_empty c)) cs ≡ true
      → all is_entry (gather (λ c. c) cs) ≡ true
      → any (λ c. elem p.port (split_on comma (join_csv c))) cs ≡ elem p.port (gather (λ c. c) cs)
  any-chunk [] h k = refl
  any-chunk ([] ∷ cs) h k = ground (arith, h)
  any-chunk ((x ∷ c) ∷ cs) h k = ground (
    arith,
    all-append is_entry (x ∷ c) (gather (λ d. d) cs),
    split_on-join_csv x c,
    any-append (text_eq p.port) (x ∷ c) (gather (λ d. d) cs),
    any-chunk cs,
  )

  ports_accepted :
      (protocol : Text) (ports : List Text)
      → all is_entry ports ≡ true
      → any
          (λ pp. accepts (tail_of pp))
          (map (multiport_args protocol) (chunks (length ports) multiport ports))
        ≡ (text_eq p.protocol protocol && elem p.port ports)
  ports_accepted protocol ports h =
      let cs = chunks (length ports) multiport ports in
      any-map (λ pp. accepts (tail_of pp)) (multiport_args protocol)
        (chunks (length ports) multiport ports)
      ∙ any_congr (λ (c : List Text). rw (judge_ports protocol (join_csv c)) (ground arith)) cs
      ∙ any-and (text_eq p.protocol protocol) (λ c. elem p.port (split_on comma (join_csv c))) cs
      ∙ ap (λ b. text_eq p.protocol protocol && b)
          (any-chunk cs
              (all_weaken (λ c. not (is_empty c) && leb (length c) multiport)
                (λ c. not (is_empty c)) cs (λ c q. ground arith) (port_chunks ports).1)
              (rw (port_chunks ports).0 h)
            ∙ ap (elem p.port) (port_chunks ports).0)

  pub any-proto_port_args :
      (protocol : Text) (ports : List Text)
      → all is_entry ports ≡ true
      → any (λ pp. accepts (tail_of pp)) (proto_port_args protocol ports)
        ≡ proto_ok p protocol ports
  unfolding proto_port_args
  any-proto_port_args protocol ports h = ground (
    arith,
    judge_bare,
    judge_protocol protocol,
    judge_protocol (codes "icmp"),
    ports_accepted protocol ports h,
  )

  no_ports_drop :
      (protocol : Text) (cs : List (List Text))
      → any (λ pp. drops (tail_of pp)) (map (multiport_args protocol) cs) ≡ false
  no_ports_drop protocol [] = refl
  no_ports_drop protocol (c ∷ cs) =
      ground (arith, judge_ports protocol (join_csv c), no_ports_drop protocol cs)

  pub no_protocol_drops :
      (protocol : Text) (ports : List Text)
      → any (λ pp. drops (tail_of pp)) (proto_port_args protocol ports) ≡ false
  unfolding proto_port_args
  no_protocol_drops protocol ports = ground (
    arith,
    judge_bare,
    judge_protocol protocol,
    judge_protocol (codes "icmp"),
    no_ports_drop protocol (chunks (length ports) multiport ports),
  )

  -- A chain that starts with known flows and ends with DROP decides every packet.
  pub closed_chain :
      (specs : List Spec)
      → any drops specs ≡ false
      → verdict p (established ∷ (specs ++ drop_all ∷ []))
        ≡ some (p.known_flow || any accepts specs)
  unfolding judge text_eq
  closed_chain specs h = ground (arith, verdict-append specs (drop_all ∷ []) h)

  -- A list of rules that share a front, whose tests have the outcome `b`.
  module _ (front : Spec) (b : Bool)
      (reads : (rest : Spec)
        → judge p true (front ++ rest) ≡ (if b then judge p true rest else none)) where
    pub any-accepts :
        (pps : List Spec)
        → any accepts (map (λ pp. accept (front ++ pp)) pps)
          ≡ (b && any (λ pp. accepts (tail_of pp)) pps)
    any-accepts pps =
        any-map accepts (λ pp. accept (front ++ pp)) pps
        ∙ any_congr
            (λ (pp : Spec).
              rw (append_assoc front pp (codes "-j" ∷ codes "ACCEPT" ∷ []), reads (tail_of pp))
                (ground arith))
            pps
        ∙ any-and b (λ pp. accepts (tail_of pp)) pps

    pub any-drops :
        (pps : List Spec)
        → any (λ pp. drops (tail_of pp)) pps ≡ false
        → any drops (map (λ pp. accept (front ++ pp)) pps) ≡ false
    any-drops pps h =
        any-map drops (λ pp. accept (front ++ pp)) pps
        ∙ any_congr
            (λ (pp : Spec).
              rw (append_assoc front pp (codes "-j" ∷ codes "ACCEPT" ∷ []), reads (tail_of pp))
                (ground arith))
            pps
        ∙ any-and b (λ pp. drops (tail_of pp)) pps
        ∙ rw h (ground arith)

-- ===== src/Agent/Filterspec/Admission.antt =====
-- The verdicts of the ACL chains of internal/agent/filterspec.go against their rules.
use home_kai.Base.{
  Text, codes, Bool, true, false, ◌&&◌, ◌||◌, ◌≡◌, refl, sym, ap, ◌∙◌, none, some, List, [], ◌∷◌,
  ◌++◌, map, any, all, gather, any-gather, any-and, any_congr, arith, if◌then◌else◌,
}
use mathlib.Core.Bool.{and_assoc}
use home_kai.Text.Csv.{is_entry}
use home_kai.Model.{FilterRule, ForwardRule}
use home_kai.Agent.Filterspec.{
  Spec, proto_port_args, accept, filter_specs, filter_chain_specs, forward_specs,
  forward_chain_specs,
}
use home_kai.Agent.Filterspec.Verdicts.{
  Packet, judge, verdict, proto_ok, accepts, drops, any-accepts, any-drops, closed_chain,
  judge_source, judge_destination, any-proto_port_args, no_protocol_drops,
}

none-any {ℓ} : {A : Type ℓ} (xs : List A) → any (λ x. false) xs ≡ false
none-any [] = refl
none-any (x ∷ xs) = none-any xs

any_and-const {ℓ} :
    {A : Type ℓ} (b : Bool) (p : A → Bool) (xs : List A) → any (λ x. p x && b) xs ≡ (any p xs && b)
any_and-const b p [] = refl
any_and-const b p (x ∷ xs) = ground (arith, any_and-const b p xs)

no_gather {ℓ κ} :
    {A : Type ℓ} {B : Type κ} (q : B → Bool) (f : A → List B) (xs : List A)
    → ((x : A) → any q (f x) ≡ false)
    → any q (gather f xs) ≡ false
no_gather q f xs h = any-gather q f xs ∙ any_congr h xs ∙ none-any xs

module _ (p : Packet) where
  -- Does an inbound rule admit the packet, and does a forward rule?
  abbrev pub admitted : FilterRule → Bool
  admitted r = any p.from r.src_cidrs && proto_ok p r.protocol r.ports

  abbrev pub forwarded : ForwardRule → Bool
  forwarded r = any p.from r.src_cidrs && any p.to r.dst_cidrs && proto_ok p r.protocol r.ports

  -- The matchers of the two kinds of rules.
  abbrev source : Text → Spec
  source src = codes "-s" ∷ src ∷ []

  abbrev flow : Text → Text → Spec
  flow src dst = codes "-s" ∷ src ∷ codes "-d" ∷ dst ∷ []

  reads_flow :
      (src dst : Text) (rest : Spec)
      → judge p true (flow src dst ++ rest)
        ≡ (if p.from src && p.to dst then judge p true rest else none)
  reads_flow src dst rest =
      judge_source p src (codes "-d" ∷ dst ∷ rest) ∙ ground (arith, judge_destination p dst rest)

  any-filter_specs :
      (r : FilterRule) → all is_entry r.ports ≡ true → any (accepts p) (filter_specs r) ≡ admitted r
  unfolding filter_specs
  any-filter_specs r h =
      let pps = proto_port_args r.protocol r.ports in
      any-gather (accepts p) (λ src. map (λ pp. accept (source src ++ pp)) pps) r.src_cidrs
      ∙ any_congr
          (λ (src : Text).
            any-accepts p (source src) (p.from src) (judge_source p src) pps
            ∙ ap (λ b. p.from src && b) (any-proto_port_args p r.protocol r.ports h))
          r.src_cidrs
      ∙ any_and-const (proto_ok p r.protocol r.ports) p.from r.src_cidrs

  no_filter_drops : (r : FilterRule) → any (drops p) (filter_specs r) ≡ false
  unfolding filter_specs
  no_filter_drops r =
      let pps = proto_port_args r.protocol r.ports in
      no_gather (drops p) (λ src. map (λ pp. accept (source src ++ pp)) pps) r.src_cidrs
        (λ src.
          any-drops p (source src) (p.from src) (judge_source p src) pps
            (no_protocol_drops p r.protocol r.ports))

  any-forward_specs :
      (r : ForwardRule)
      → all is_entry r.ports ≡ true
      → any (accepts p) (forward_specs r) ≡ forwarded r
  unfolding forward_specs
  any-forward_specs r h =
      let pps = proto_port_args r.protocol r.ports in
      let ok = proto_ok p r.protocol r.ports in
      any-gather (accepts p)
        (λ src. gather (λ dst. map (λ pp. accept (flow src dst ++ pp)) pps) r.dst_cidrs) r.src_cidrs
      ∙ any_congr
          (λ (src : Text).
            any-gather (accepts p) (λ dst. map (λ pp. accept (flow src dst ++ pp)) pps) r.dst_cidrs
            ∙ any_congr
                (λ (dst : Text).
                  any-accepts p (flow src dst) (p.from src && p.to dst) (reads_flow src dst) pps
                  ∙ ap (λ b. (p.from src && p.to dst) && b)
                      (any-proto_port_args p r.protocol r.ports h)
                  ∙ and_assoc (p.from src) (p.to dst) ok)
                r.dst_cidrs
            ∙ any-and (p.from src) (λ dst. p.to dst && ok) r.dst_cidrs
            ∙ ap (λ b. p.from src && b) (any_and-const ok p.to r.dst_cidrs))
          r.src_cidrs
      ∙ any_and-const (any p.to r.dst_cidrs && ok) p.from r.src_cidrs
      ∙ sym (and_assoc (any p.from r.src_cidrs) (any p.to r.dst_cidrs) ok)

  no_forward_drops : (r : ForwardRule) → any (drops p) (forward_specs r) ≡ false
  unfolding forward_specs
  no_forward_drops r =
      let pps = proto_port_args r.protocol r.ports in
      no_gather (drops p)
        (λ src. gather (λ dst. map (λ pp. accept (flow src dst ++ pp)) pps) r.dst_cidrs) r.src_cidrs
        (λ src.
          no_gather (drops p) (λ dst. map (λ pp. accept (flow src dst ++ pp)) pps) r.dst_cidrs
            (λ dst.
              any-drops p (flow src dst) (p.from src && p.to dst) (reads_flow src dst) pps
                (no_protocol_drops p r.protocol r.ports)))

  any_of_rules {ℓ} :
      {A : Type ℓ} (good : A → Bool) (q r : A → Bool) (xs : List A)
      → ((x : A) → good x ≡ true → q x ≡ r x)
      → all good xs ≡ true
      → any q xs ≡ any r xs
  any_of_rules good q r [] f h = refl
  any_of_rules good q r (x ∷ xs) f h = ground (arith, f x, any_of_rules good q r xs f)

  -- When no port of the rules is empty or has a comma, the inbound chain accepts what belongs to a
  -- known flow or what one of the rules admits, and drops the rest.
  pub filter_chain_verdict :
      (rules : List FilterRule)
      → all (λ r. all is_entry r.ports) rules ≡ true
      → verdict p (filter_chain_specs rules) ≡ some (p.known_flow || any admitted rules)
  unfolding filter_chain_specs
  filter_chain_verdict rules h =
      closed_chain p (gather filter_specs rules)
        (no_gather (drops p) filter_specs rules no_filter_drops)
      ∙ ap (λ b. some (p.known_flow || b))
          (any-gather (accepts p) filter_specs rules
            ∙ any_of_rules (λ r. all is_entry r.ports) (λ r. any (accepts p) (filter_specs r))
                admitted rules any-filter_specs h)

  -- When no port of the rules is empty or has a comma, the forward chain accepts what belongs to a
  -- known flow or what one of the rules lets through, and drops the rest.
  pub forward_chain_verdict :
      (rules : List ForwardRule)
      → all (λ r. all is_entry r.ports) rules ≡ true
      → verdict p (forward_chain_specs rules) ≡ some (p.known_flow || any forwarded rules)
  unfolding forward_chain_specs
  forward_chain_verdict rules h =
      closed_chain p (gather forward_specs rules)
        (no_gather (drops p) forward_specs rules no_forward_drops)
      ∙ ap (λ b. some (p.known_flow || b))
          (any-gather (accepts p) forward_specs rules
            ∙ any_of_rules (λ r. all is_entry r.ports) (λ r. any (accepts p) (forward_specs r))
                forwarded rules any-forward_specs h)

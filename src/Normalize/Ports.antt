-- ===== src/Normalize/Ports.antt =====
-- normalizePorts (internal/coordinator/acl.go) and the comma lists that store its result.
use home_kai.Base.{
  ℕ, Text, Bool, true, false, ◌&&◌, Option, none, some, ◌≡◌, refl, List, [], ◌∷◌, any, all,
  all-append, leb, ◌==◌, arith, Option-cases, sym, ap, ◌∙◌, inl, inr,
}
use home_kai.Text.{comma, trim_space}
use home_kai.Text.Csv.{is_entry}
use home_kai.Netip.Parse.{parse_digits}
use home_kai.Normalize.{
  add_new, port_value, port_in_range, insert_port, sort_ports, add_ports, normalize_ports,
}

abbrev is_number_char : ℕ → Bool
is_number_char c = leb b'0' c && leb c b'9'

digits_have_no_comma : (s : Text) → all is_number_char s ≡ true → any (λ c. c == comma) s ≡ false
digits_have_no_comma [] h = refl
digits_have_no_comma (c ∷ s) h = ground (arith, digits_have_no_comma s)

parse_digits-no_comma : (s : Text) → any (λ c. c == comma) s ≡ true → parse_digits s ≡ none
unfolding parse_digits
parse_digits-no_comma s h = ground (arith, digits_have_no_comma s)

port_entry : (p : Text) → port_in_range (port_value p) ≡ true → is_entry p ≡ true
unfolding port_value
port_entry [] h = ground arith
port_entry (c ∷ s) h = ground (arith, parse_digits-no_comma s, parse_digits-no_comma (c ∷ s))

abbrev are_entries : Option (List Text) → Bool
are_entries none = true
are_entries (some ports) = all is_entry ports

add_new_entry :
    (x : Text) (out : List Text)
    → is_entry x ≡ true
    → all is_entry out ≡ true
    → all is_entry (add_new x out) ≡ true
unfolding add_new
add_new_entry x out h k = ground (arith, h, k, all-append is_entry out (x ∷ []))

add_ports_entries :
    (ps out : List Text) → all is_entry out ≡ true → are_entries (add_ports ps out) ≡ true
unfolding add_ports
add_ports_entries [] out h = h
add_ports_entries (p ∷ ps) out h =
    let port = trim_space p in
    ground (
      arith,
      add_ports_entries ps out h,
      add_ports_entries ps (add_new port out),
      add_new_entry port out,
      port_entry port,
    )

insert_port_entries :
    (x : Text) (xs : List Text) → all is_entry (insert_port x xs) ≡ all is_entry (x ∷ xs)
unfolding insert_port
insert_port_entries x [] = refl
insert_port_entries x (y ∷ ys) = ground (arith, insert_port_entries x ys)

sort_ports_entries : (xs : List Text) → all is_entry (sort_ports xs) ≡ all is_entry xs
unfolding sort_ports
sort_ports_entries [] = refl
sort_ports_entries (x ∷ xs) =
    ground (arith, insert_port_entries x (sort_ports xs), sort_ports_entries xs)

normalized_entries : (wanted : List Text) → are_entries (normalize_ports wanted) ≡ true
unfolding normalize_ports
normalized_entries wanted = elim (Option-cases (add_ports wanted [])) [
  | inl e ↦ rw (normalize_ports, e) refl
  | inr (out, e) ↦
      rw (normalize_ports, e)
        (sort_ports_entries out ∙ (sym (ap are_entries e) ∙ add_ports_entries wanted [] refl))
]

-- Every port that is accepted is a nonempty text without commas.
pub normalize_ports_entries :
    (wanted ports : List Text) → normalize_ports wanted ≡ some ports → all is_entry ports ≡ true
normalize_ports_entries wanted ports h = sym (ap are_entries h) ∙ normalized_entries wanted

-- ===== src/Hosts/Labels.antt =====
-- The labels that `buildHosts` of internal/coordinator/netmap.go gives.
use mathlib.Core.List.{append_cancel_left, append_cancel_right}
use home_kai.Base.{
  ℕ, zero, suc, ◌+◌, ◌-◌, ◌*◌, ◌/◌, ◌%◌, ◌≤◌, ◌<◌, Text, text_eq, text_eq_iff, text_eq_refl, elem,
  is_nodup, is_nodup_nil, is_nodup_cons, true, false, not, ◌≡◌, refl, sym, ap, ◌∙◌, List, [], ◌∷◌,
  ◌++◌, map, keep, length, length-append, length-keep-le, ltb, arith, Bool-cases, inl, inr,
}
use home_kai.Netip.{show_decimal}
use home_kai.Model.{Node, StaticPeer, HostEntry, hosts_suffix}
use home_kai.Hosts.{sanitize_host_label, numbered, free_label, add_hosts, build_hosts}

-- The number that a decimal text stands for, behind the digits that were read.
value : ℕ → Text → ℕ
value acc [] = acc
value acc (c ∷ s) = value (acc * 10 + (c - 48)) s

value-append : (acc c : ℕ) (s : Text) → value acc (s ++ c ∷ []) ≡ value acc s * 10 + (c - 48)
unfolding value
value-append acc c [] = refl
value-append acc c (d ∷ s) = value-append (acc * 10 + (d - 48)) c s

value-show_decimal : (fuel n : ℕ) → n < fuel → value 0 (show_decimal fuel n) ≡ n
unfolding value show_decimal
value-show_decimal zero n h = absurd (omega arith)
value-show_decimal (suc fuel) n h = elim (Bool-cases (ltb n 10)) [
  | inl e ↦ rw e (omega arith)
  | inr e ↦ rw e (
      rw
        (
          value-append 0 (48 + n % 10) (show_decimal fuel (n / 10)),
          value-show_decimal fuel (n / 10) (ground arith),
        )
        (omega arith))
]

value_behind : Text → ℕ
value_behind [] = 0
value_behind (c ∷ s) = value 0 s

numbered_inj : (base : Text) (i j : ℕ) → numbered base i ≡ numbered base j → i ≡ j
unfolding value_behind
numbered_inj base i j e =
    sym (value-show_decimal (i + 1) i (omega arith))
    ∙ ap value_behind
        (append_cancel_left base (45 ∷ show_decimal (i + 1) i) (45 ∷ show_decimal (j + 1) j) e)
    ∙ value-show_decimal (j + 1) j (omega arith)

ne_of_ne : (s t : Text) → (s ≡ t → ⊥) → text_eq s t ≡ false
ne_of_ne s t h = ground (arith, text_eq_iff s t)

numbered_apart :
    (base : Text) (i j : ℕ) → i < j → text_eq (numbered base j) (numbered base i) ≡ false
numbered_apart base i j h =
    ne_of_ne (numbered base j) (numbered base i) (λ e. omega (arith, numbered_inj base j i e))

numbered_longer : (base : Text) (j : ℕ) → text_eq (numbered base j) base ≡ false
numbered_longer base j =
    ne_of_ne (numbered base j) base
      (λ e. omega (arith, ap length e, length-append base (45 ∷ show_decimal (j + 1) j)))

-- The labels without one of them.
abbrev others : Text → List Text → List Text
others x used = keep (λ y. not (text_eq x y)) used

elem-others :
    (c x : Text) (used : List Text) → text_eq c x ≡ false → elem c (others x used) ≡ elem c used
elem-others c x [] h = refl
elem-others c x (y ∷ used) h = elim (Bool-cases (text_eq x y)) [
  | inl e ↦
      let same : text_eq c y ≡ false = (ap (text_eq c) (sym ((text_eq_iff x y).0 e))) ∙ h in
      ground (arith, elem-others c x used)
  | inr e ↦ ground (arith, elem-others c x used)
]

length-others :
    (x : Text) (used : List Text) → elem x used ≡ true → length (others x used) < length used
length-others x [] h = ground arith
length-others x (y ∷ used) h =
    ground (arith, length-others x used, length-keep-le (λ z. not (text_eq x z)) used)

module _ (base x : Text) where
  -- No number from `i` on gives the label `x`.
  abbrev AreApart : ℕ → Type 0
  AreApart i = (j : ℕ) → i ≤ j → text_eq (numbered base j) x ≡ false

  free_label-avoids :
      (fuel : ℕ) (used : List Text) (i : ℕ) (label : Text)
      → text_eq label x ≡ false
      → AreApart i
      → text_eq (free_label fuel used base i label) x ≡ false
  unfolding free_label
  free_label-avoids zero used i label h a = h
  free_label-avoids (suc fuel) used i label h a = ground (
    arith,
    free_label-avoids fuel used (i + 1) (numbered base i) (a i (omega arith))
        (λ j l. a j (omega arith)),
  )

  free_label-others :
      (fuel : ℕ) (used : List Text) (i : ℕ) (label : Text)
      → text_eq label x ≡ false
      → AreApart i
      → free_label fuel used base i label ≡ free_label fuel (others x used) base i label
  unfolding free_label
  free_label-others zero used i label h a = refl
  free_label-others (suc fuel) used i label h a =
      rw
        (
          elem-others label x used h,
          free_label-others fuel used (i + 1) (numbered base i) (a i (omega arith))
              (λ j l. a j (omega arith)),
        )
        refl

free_label-free :
    (base : Text) (fuel : ℕ) (used : List Text) (i : ℕ) (label : Text)
    → length used < fuel
    → AreApart base label i
    → elem (free_label fuel used base i label) used ≡ false
unfolding free_label
free_label-free base zero used i label h a = absurd (omega arith)
free_label-free base (suc fuel) used i label h a = elim (Bool-cases (elem label used)) [
  | inl e ↦
      let later : AreApart base label (i + 1) = λ j l. a j (omega arith) in
      let first = a i (omega arith) in
      let found = free_label fuel used base (i + 1) (numbered base i) in
      let gone : elem found (others label used) ≡ false =
        ap (λ t. elem t (others label used))
          (free_label-others base label fuel used (i + 1) (numbered base i) first later)
        ∙ free_label-free base fuel (others label used) (i + 1) (numbered base i)
            (omega (arith, length-others label used e))
            (λ j l. numbered_apart base i j (omega arith)) in
      rw e (
        sym (
          elem-others found label used
            (free_label-avoids base label fuel used (i + 1) (numbered base i) first later))
        ∙ gone)
  | inr e ↦ rw e e
]

-- A label that `add` gives is not used yet, with the fuel it has.
fresh_label :
    (base : Text) (used : List Text)
    → elem (free_label (length used + 1) used base 2 base) used ≡ false
fresh_label base used =
    free_label-free base (length used + 1) used 2 base (omega arith) (λ j l. numbered_longer base j)

pub same_suffix : (s t suffix : Text) → text_eq (s ++ suffix) (t ++ suffix) ≡ text_eq s t
same_suffix s t suffix = elim (Bool-cases (text_eq s t)) [
  | inl e ↦
      (text_eq_iff (s ++ suffix) (t ++ suffix)).1 (ap (λ u. u ++ suffix) ((text_eq_iff s t).0 e))
      ∙ sym e
  | inr e ↦
      ne_of_ne (s ++ suffix) (t ++ suffix)
        (λ q. ground (arith, e, (text_eq_iff s t).1 (append_cancel_right s t suffix q)))
      ∙ sym e
]

abbrev pub host_names : List HostEntry → List Text
host_names hosts = map (λ (h : HostEntry). h.name) hosts

ne_of_elem :
    (x l : Text) (used : List Text) → elem x used ≡ true → elem l used ≡ false → text_eq x l ≡ false
ne_of_elem x l used h k = ne_of_ne x l (λ e. cc (h, k, ap (λ t. elem t used) e))

used_label :
    (x : Text) (used : List Text) (devices : List (Text × Text))
    → elem x used ≡ true
    → elem (x ++ hosts_suffix) (host_names (add_hosts used devices)) ≡ false
unfolding add_hosts
used_label x used [] h = refl
used_label x used ((name, ip) ∷ devices) h =
    let base = sanitize_host_label name in
    let label = free_label (length used + 1) used base 2 base in
    ground (
      arith,
      same_suffix x label hosts_suffix,
      ne_of_elem x label used h (fresh_label base used),
      used_label x (label ∷ used) devices (ground (arith, h)),
    )

add_hosts-is_nodup :
    (used : List Text) (devices : List (Text × Text))
    → is_nodup (host_names (add_hosts used devices)) ≡ true
unfolding add_hosts
add_hosts-is_nodup used [] = is_nodup_nil
add_hosts-is_nodup used ((name, ip) ∷ devices) =
    let base = sanitize_host_label name in
    let label = free_label (length used + 1) used base 2 base in
    is_nodup_cons (label ++ hosts_suffix) (host_names (add_hosts (label ∷ used) devices))
      (used_label label (label ∷ used) devices (ground (arith, text_eq_refl label)))
      (add_hosts-is_nodup (label ∷ used) devices)

-- No two of the names that buildHosts gives to the nodes and the static peers are equal, whatever
-- the devices are called; the fuel of the search for a free label is enough.
pub build_hosts-is_nodup :
    (nodes : List Node) (statics : List StaticPeer)
    → is_nodup (host_names (build_hosts nodes statics)) ≡ true
unfolding build_hosts
build_hosts-is_nodup nodes statics = add_hosts-is_nodup [] (
    map (λ (n : Node). (n.name, n.overlay_ip)) nodes
    ++ map (λ (p : StaticPeer). (p.name, p.overlay_ip)) statics)

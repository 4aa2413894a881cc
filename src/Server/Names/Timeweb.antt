-- ===== src/Server/Names/Timeweb.antt =====
-- The DNS service of Timeweb: internal/coordinator/dns/timeweb.go.
use home_kai.Base.{
  ℕ, Text, codes, text_eq, text_eq_iff, Bool, true, false, not, ◌||◌, ◌==◌, Option, none, some, ◌≡◌,
  sym, ap, ◌∙◌, List, [], ◌∷◌, ◌++◌, ltb, is_empty, arith, if◌then◌else◌, Bool-cases, inl, inr,
}
use home_kai.Netip.{show_decimal}
use home_kai.Store.Exec.{Result, ok, err}
use home_kai.Server.Names.{Provider}

pub data Verb : Type 0 where
  get patch post delete : Verb

-- A record that is written: its type, its value and, for a new one, the subdomain and the TTL.
pub record Body : Type 0 where
  pub kind : Text
  pub value : Text
  pub subdomain : Option Text
  pub ttl : Option ℕ

-- `twRecord`; ids are positive.
pub record TwRecord : Type 0 where
  pub id : ℕ
  pub kind : Text

pub data TwErr : Type 0 where
  tw_not_found tw_failed : TwErr

-- `Timeweb`. The rest of the world is of type S. A request with the token ends with a status and the
-- text of the answer, or without an answer; `decode` is encoding/json on the list of records.
pub record Timeweb (S : Type 0) : Type 0 where
  pub zone : Text
  pub send : Verb → Text → Option Body → S → Option (ℕ × Text) × S
  pub decode : Text → Option (List TwRecord)

abbrev pub read_answer : Option (ℕ × Text) → Result TwErr Text
read_answer none = err tw_failed
read_answer (some (status, text)) =
    if status == 404
    then err tw_not_found
    else if ltb status 200 || ltb 299 status
    then err tw_failed
    else ok text

-- strings.TrimSuffix of a nonempty suffix
unfoldable pub trim_suffix : Text → Text → Text
trim_suffix [] suffix = []
trim_suffix (c ∷ s) suffix =
    let rest = trim_suffix s suffix in if text_eq (c ∷ s) suffix then [] else c ∷ rest

-- The id of the first A record, or 0.
abbrev pub first_a : List TwRecord → ℕ
first_a [] = 0
first_a (r ∷ rs) = let rest = first_a rs in if text_eq r.kind (codes "A") then r.id else rest

abbrev pub is_done : {A : Type 0} → Result TwErr A → Bool
is_done (ok a) = true
is_done (err e) = false

abbrev pub records_path : Text → Text
records_path domain = codes "/api/v1/domains/" ++ (domain ++ codes "/dns-records")

-- int64 has at most 19 digits.
abbrev pub record_path : Text → ℕ → Text
record_path fqdn id = records_path fqdn ++ (b'/' ∷ show_decimal 19 id)

module _ {S : Type 0} (t : Timeweb S) where
  unfoldable pub subdomain : Text → Option Text
  subdomain fqdn =
      let sub = trim_suffix fqdn (b'.' ∷ t.zone) in
      if text_eq sub fqdn || is_empty sub then none else some sub

  -- do
  unfoldable pub do_call : Verb → Text → Option Body → S → Result TwErr Text × S
  do_call verb path body s = let (answer, s') = t.send verb path body s in (read_answer answer, s')

  abbrev pub found_a : Result TwErr Text → Result TwErr ℕ
  found_a (err tw_not_found) = ok 0
  found_a (err tw_failed) = err tw_failed
  found_a (ok text) = elim (t.decode text) [ none ↦ err tw_failed | some rs ↦ ok (first_a rs) ]

  unfoldable pub find_a : Text → S → Result TwErr ℕ × S
  find_a fqdn s =
      let (answer, s') = do_call get (records_path fqdn ++ codes "?limit=100") none s in
      (found_a answer, s')

  -- EnsureA, with the id that `findA` found
  abbrev pub put_a : Text → Text → Text → Result TwErr ℕ → S → Bool × S
  put_a fqdn sub ip (err e) s = (false, s)
  put_a fqdn sub ip (ok id) s =
      let (answer, s') =
        if not (id == 0)
        then do_call patch (record_path fqdn id)
            (some (record { kind = codes "A"; value = ip; subdomain = none; ttl = none })) s
        else do_call post (records_path t.zone)
            (some (record { kind = codes "A"; value = ip; subdomain = some sub; ttl = some 600 }))
            s in
      (is_done answer, s')

  unfoldable pub timeweb_ensure_a : Text → Text → S → Bool × S
  timeweb_ensure_a fqdn ip s = elim (subdomain fqdn) [
    | none ↦ (false, s)
    | some sub ↦ let (id, s') = find_a fqdn s in put_a fqdn sub ip id s'
  ]

  -- A record that is not there any more is no error.
  abbrev pub is_gone : Result TwErr Text → Bool
  is_gone (ok text) = true
  is_gone (err tw_not_found) = true
  is_gone (err tw_failed) = false

  -- DeleteA, with the id that `findA` found
  abbrev pub drop_a : Text → Result TwErr ℕ → S → Bool × S
  drop_a fqdn (err e) s = (false, s)
  drop_a fqdn (ok id) s =
      if id == 0
      then (true, s)
      else let (answer, s') = do_call delete (record_path fqdn id) none s in (is_gone answer, s')

  unfoldable pub timeweb_delete_a : Text → S → Bool × S
  timeweb_delete_a fqdn s = elim (subdomain fqdn) [
    | none ↦ (false, s)
    | some sub ↦ let (id, s') = find_a fqdn s in drop_a fqdn id s'
  ]

  -- The methods of `Timeweb` as a provider of names.
  abbrev pub timeweb_provider : (ℕ → S → Option ℕ × S) → Provider S
  timeweb_provider random = record {
    random = random;
    ensure_a = timeweb_ensure_a;
    delete_a = timeweb_delete_a;
  }

-- What is cut off is the suffix.
trim_suffix_parts :
    (s suffix : Text)
    → text_eq (trim_suffix s suffix) s ≡ false
    → trim_suffix s suffix ++ suffix ≡ s
unfolding trim_suffix text_eq
trim_suffix_parts [] suffix h = absurd (ground (arith, h))
trim_suffix_parts (c ∷ s) suffix h = elim (Bool-cases (text_eq (c ∷ s) suffix)) [
  | inl e ↦ rw (trim_suffix, e) (sym ((text_eq_iff (c ∷ s) suffix).0 e))
  | inr e ↦ rw (trim_suffix, e) (ap (λ r. c ∷ r) (trim_suffix_parts s suffix (rest_differs e h)))
]
  where
    rest_differs :
        text_eq (c ∷ s) suffix ≡ false
        → text_eq (trim_suffix (c ∷ s) suffix) (c ∷ s) ≡ false
        → text_eq (trim_suffix s suffix) s ≡ false
    rest_differs e h = ground (arith, e, h)

-- The name that EnsureA has the zone make from the subdomain is the one that was asked for.
subdomain-in_zone :
    {S : Type 0} (t : Timeweb S) (fqdn sub : Text)
    → subdomain t fqdn ≡ some sub
    → sub ++ b'.' ∷ t.zone ≡ fqdn
unfolding subdomain
subdomain-in_zone t fqdn sub h = elim (Bool-cases (text_eq (trim_suffix fqdn dotted) fqdn)) [
  | inl e ↦ absurd (ground (arith, h, e))
  | inr e ↦
      let same : sub ≡ trim_suffix fqdn dotted = ground (arith, h, e) in
      ap (λ x. x ++ dotted) same ∙ trim_suffix_parts fqdn dotted e
]
  where
    dotted : Text
    dotted = b'.' ∷ t.zone

-- ===== src/Agent/HostsFile/Block.antt =====
-- The managed block of internal/agent/hosts.go in a file.
use mathlib.Core.List.{append_assoc, append-nil}
use home_kai.Base.{
  ℕ, zero, suc, ◌+◌, ◌-◌, Text, codes, Bool, true, false, not, ◌&&◌, none, some, ◌≡◌, refl, sym, ap,
  ◌∙◌, List, [], ◌∷◌, ◌++◌, any, all, all-append, gather, length, length-append, take, drop,
  is_empty, ◌==◌, arith, if◌then◌else◌,
}
use home_kai.Model.{HostEntry}
use home_kai.Agent.HostsFile.{
  newline, hosts_begin, hosts_end, has_prefix, index, trim_prefix, spaces, entry_line,
  render_hosts_block, strip_managed_block, end_line, next_hosts,
}
use home_kai.Agent.HostsFile.Search.{
  is_newline, ends_line, ends_line-snoc, in_line, has_prefix-longer, is_free, index-append,
  is_free-append, index_self, take-length, drop-length,
}

-- The entries that have neither the sign of the markers nor a newline.
abbrev is_plain_char : ℕ → Bool
is_plain_char c = not (c == b'#')

abbrev pub is_plain : HostEntry → Bool
is_plain e = all is_plain_char e.ip && all is_plain_char e.name

-- A text without the sign is without a pattern that starts with it.
plain_free :
    (p s : Text)
    → all is_plain_char s ≡ true
    → elim (index s (b'#' ∷ p)) [ none ↦ true | some n ↦ false ] ≡ true
unfolding index has_prefix
plain_free p [] h = refl
plain_free p (c ∷ s) h = ground (arith, plain_free p s)

spaces_plain : (n : ℕ) → all is_plain_char (spaces n) ≡ true
spaces_plain zero = refl
spaces_plain (suc n) = spaces_plain n

entry_line_plain : (e : HostEntry) → is_plain e ≡ true → all is_plain_char (entry_line e) ≡ true
entry_line_plain e h = ground (
  arith,
  all-append is_plain_char e.ip (spaces (15 - length e.ip) ++ (b' ' ∷ (e.name ++ newline))),
  all-append is_plain_char (spaces (15 - length e.ip)) (b' ' ∷ (e.name ++ newline)),
  all-append is_plain_char e.name newline,
  spaces_plain (15 - length e.ip),
)

entry_line-ends : (e : HostEntry) → ends_line (entry_line e) ≡ true
entry_line-ends e =
    rw
      (
        sym (append_assoc (spaces (15 - length e.ip)) (b' ' ∷ e.name) newline),
        sym (append_assoc e.ip (spaces (15 - length e.ip) ++ (b' ' ∷ e.name)) newline),
      )
      (ends_line-snoc (e.ip ++ (spaces (15 - length e.ip) ++ (b' ' ∷ e.name))))

entries_free :
    (p : Text) (entries : List HostEntry)
    → any is_newline p ≡ false
    → all is_plain entries ≡ true
    → is_free (b'#' ∷ p) (gather entry_line entries) ≡ true
unfolding index has_prefix
entries_free p [] h k = refl
entries_free p (e ∷ entries) h k =
    is_free-append (b'#' ∷ p) (entry_line e) (gather entry_line entries) (ground (arith, h))
      (ground (
        arith,
        entry_line-ends e,
        plain_free p (entry_line e) (entry_line_plain e (ground (arith, k))),
      ))
      (entries_free p entries h (ground (arith, k)))

-- What stands before the end marker.
abbrev block_front : List HostEntry → Text
block_front entries = (hosts_begin ++ newline) ++ gather entry_line entries

block_front-free :
    (entries : List HostEntry)
    → all is_plain entries ≡ true
    → is_free hosts_end (block_front entries) ≡ true
unfolding index has_prefix
block_front-free entries h =
    is_free-append hosts_end (hosts_begin ++ newline) (gather entry_line entries) refl refl
      (entries_free (codes " kai overlay end") entries refl h)

-- A text without markers.
abbrev pub is_unmanaged : Text → Bool
is_unmanaged s = is_free hosts_begin s && is_free hosts_end s

-- The parts of a text with a block, whatever its markers `b` and `e` are.
module _ (s b mid e t : Text) where
  abbrev whole : Text
  whole = s ++ (b ++ (mid ++ (e ++ (newline ++ t))))

  abbrev front : Text
  front = s ++ (b ++ mid)

  whole-front : whole ≡ front ++ (e ++ (newline ++ t))
  whole-front =
      ap (λ u. s ++ u) (sym (append_assoc b mid (e ++ (newline ++ t))))
      ∙ sym (append_assoc s (b ++ mid) (e ++ (newline ++ t)))

  found_first : in_line b ≡ true → is_free b s ≡ true → index whole b ≡ some (length s)
  found_first h k =
      index-append b s (b ++ (mid ++ (e ++ (newline ++ t)))) h k
      ∙ rw (index_self b (mid ++ (e ++ (newline ++ t))) h) (ap some (omega arith))

  found_last : in_line e ≡ true → is_free e front ≡ true → index whole e ≡ some (length front)
  found_last h k =
      ap (λ u. index u e) whole-front
      ∙ index-append e front (e ++ (newline ++ t)) h k
      ∙ rw (index_self e (newline ++ t) h) (ap some (omega arith))

  dropped : drop (length front + length e) whole ≡ newline ++ t
  dropped =
      ap (λ u. drop (length front + length e) u)
        (whole-front ∙ sym (append_assoc front e (newline ++ t)))
      ∙ ap (λ n. drop n ((front ++ e) ++ (newline ++ t))) (sym (length-append front e))
      ∙ drop-length (front ++ e) (newline ++ t)

  cut_out :
      take (length s) whole ++ trim_prefix (drop (length front + length e) whole) newline ≡ s ++ t
  unfolding trim_prefix has_prefix
  cut_out = rw (take-length s (b ++ (mid ++ (e ++ (newline ++ t)))), dropped) refl

-- Taking the block out of a text leaves what is around it.
strip_block :
    (s t : Text) (entries : List HostEntry)
    → is_unmanaged s ≡ true
    → all is_plain entries ≡ true
    → strip_managed_block (
        s
        ++ (hosts_begin
            ++ ((newline ++ gather entry_line entries) ++ (hosts_end ++ (newline ++ t)))))
      ≡ s ++ t
unfolding strip_managed_block
strip_block s t entries h k =
    let mid = newline ++ gather entry_line entries in
    rw
      (
        found_first s hosts_begin mid hosts_end t refl (ground (arith, h)),
        found_last s hosts_begin mid hosts_end t refl (
            is_free-append hosts_end s (block_front entries) refl (ground (arith, h))
              (block_front-free entries k)),
      )
      (cut_out s hosts_begin mid hosts_end t)

index-shorter : (p s t : Text) → index (s ++ t) p ≡ none → index s p ≡ none
unfolding index has_prefix
index-shorter [] [] [] h = ground (arith, h)
index-shorter [] [] (d ∷ t) h = ground (arith, h)
index-shorter (x ∷ p) [] t h = refl
index-shorter p (c ∷ s) t h = ground (arith, index-shorter p s t, has_prefix-longer p (c ∷ s) t)

strip_none : (s : Text) → is_unmanaged (end_line s) ≡ true → strip_managed_block s ≡ s
unfolding strip_managed_block end_line
strip_none s h = ground (arith, index-shorter hosts_begin s newline, h)

-- When the hosts file has, beside a managed block, no marker, and no entry has the sign #, taking
-- the block out of what updateHostsFile writes gives what stood around the old block; with entries,
-- its last line is ended.
pub hosts_roundtrip :
    (entries : List HostEntry) (cur : Text)
    → all is_plain entries ≡ true
    → is_unmanaged (end_line (strip_managed_block cur)) ≡ true
    → strip_managed_block (next_hosts entries cur)
      ≡ (if is_empty entries then strip_managed_block cur else end_line (strip_managed_block cur))
unfolding next_hosts render_hosts_block
hosts_roundtrip [] cur k h = strip_none (strip_managed_block cur) h
hosts_roundtrip (x ∷ entries) cur k h =
    let kept = end_line (strip_managed_block cur) in
    strip_block kept [] (x ∷ entries) h k ∙ append-nil kept

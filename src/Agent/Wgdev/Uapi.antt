-- ===== src/Agent/Wgdev/Uapi.antt =====
-- The texts in which internal/agent/wgdev/wgdev_darwin.go talks to wireguard-go. A key stands for its
-- bytes; `encode` gives its base64 text.
pub mod Hex
pub mod Reading
pub mod Whole
use home_kai.Base.{
  ℕ, ◌+◌, ◌-◌, ◌*◌, Text, codes, text_eq, Bool, true, false, not, ◌&&◌, ◌||◌, Option, none, some,
  List, [], ◌∷◌, ◌++◌, any, map, gather, length, ltb, leb, ◌==◌, ◌^◌, is_empty, if◌then◌else◌,
}
use home_kai.Base.Int.{ℤ, pos, negsuc, to_ℕ, neg_part}
use home_kai.Text.{split_on}
use home_kai.Netip.Parse.{parse_digits}
use home_kai.Model.{second}
use home_kai.Agent.Probe.{PeerStatus, no_status}
use home_kai.Agent.Wgdev.Uapi.Hex.{hex_decode}

-- strings.Cut at a separator of one code point
unfoldable pub cut : ℕ → Text → Option (Text × Text)
cut sep [] = none
cut sep (c ∷ s) =
    let rest = cut sep s in
    if c == sep then some ([], s) else elim rest [ none ↦ none | some (a, b) ↦ some (c ∷ a, b) ]

abbrev max_int64 : ℕ
max_int64 = 2 ^ 63 - 1

abbrev smaller : ℕ → ℕ → ℕ
smaller a b = if ltb a b then a else b

abbrev positive : Option ℕ → ℤ
positive none = pos 0
positive (some n) = pos (smaller n max_int64)

abbrev negative : Option ℕ → ℤ
negative none = pos 0
negative (some n) = if n == 0 then pos 0 else negsuc (smaller n (2 ^ 63) - 1)

-- strconv.ParseInt(s, 10, 64) without its error: 0 for what is no number, else the nearest value
unfoldable pub parse_int : Text → ℤ
unfolding parse_digits
parse_int [] = pos 0
parse_int (c ∷ s) =
    if c == b'-'
    then negative (parse_digits s)
    else positive (parse_digits (if c == b'+' then s else c ∷ s))

-- From the zero time to the Unix epoch, in seconds.
abbrev unix_epoch : ℕ
unix_epoch = 62135596800

-- time.Unix, from the zero time on
unfoldable pub unix_time : ℤ → ℤ → ℕ
unix_time sec nsec =
    (unix_epoch + to_ℕ sec) * second + to_ℕ nsec - (neg_part sec * second + neg_part nsec)

-- `cur` with `hsSec` and `hsNsec`
pub record Reader : Type 0 where
  pub out : List PeerStatus
  pub cur : Option PeerStatus
  pub sec : ℤ
  pub nsec : ℤ

abbrev pub is_positive : ℤ → Bool
is_positive (pos n) = ltb 0 n
is_positive (negsuc n) = false

abbrev pub stamped : ℤ → ℤ → PeerStatus → PeerStatus
stamped sec nsec st =
    if is_positive sec || is_positive nsec
    then record st { last_handshake = unix_time sec nsec }
    else st

abbrev pub last_status : Option PeerStatus → ℤ → ℤ → List PeerStatus
last_status none sec nsec = []
last_status (some st) sec nsec = stamped sec nsec st ∷ []

unfoldable pub flush : Reader → Reader
flush r = record {
  out = r.out ++ last_status r.cur r.sec r.nsec;
  cur = none;
  sec = pos 0;
  nsec = pos 0;
}

abbrev pub set_current : (PeerStatus → PeerStatus) → Option PeerStatus → Option PeerStatus
set_current f none = none
set_current f (some st) = some (f st)

abbrev pub key_name : Text
key_name = codes "public_key"

-- a line that starts no peer
unfoldable pub take_field : Text → Text → Reader → Reader
unfolding parse_int
take_field k v r =
    if text_eq k (codes "endpoint")
    then record r { cur = set_current (λ st. record st { endpoint = v }) r.cur }
    else if text_eq k (codes "last_handshake_time_sec")
    then record r { sec = parse_int v }
    else if text_eq k (codes "last_handshake_time_nsec")
    then record r { nsec = parse_int v }
    else if text_eq k (codes "rx_bytes")
    then record r { cur = set_current (λ st. record st { rx_bytes = parse_int v }) r.cur }
    else if text_eq k (codes "tx_bytes")
    then record r { cur = set_current (λ st. record st { tx_bytes = parse_int v }) r.cur }
    else r

-- The scanner gives up on a line of 64 KB.
abbrev pub too_long : Text → Bool
too_long l = not (ltb (length l) 65536)

abbrev pub no_peers : Reader
no_peers = record { out = []; cur = none; sec = pos 0; nsec = pos 0 }

abbrev pub drop_cr : Text → Text
drop_cr [] = []
drop_cr (c ∷ []) = if c == 13 then [] else c ∷ []
drop_cr (c ∷ d ∷ s) = c ∷ drop_cr (d ∷ s)

-- bufio.ScanLines: no line behind the last newline if nothing stands there
unfoldable pub scan_lines : List Text → List Text
scan_lines [] = []
scan_lines (l ∷ []) = if is_empty l then [] else drop_cr l ∷ []
scan_lines (l ∷ m ∷ ls) = drop_cr l ∷ scan_lines (m ∷ ls)

module _ (encode : List ℕ → Text) where
  abbrev pub start_peer : Option (List ℕ) → Reader → Option Reader
  start_peer none r = none
  start_peer (some kb) r =
      if length kb == 32
      then some (record (flush r) { cur = some (no_status (encode kb)) })
      else none

  abbrev pub take_pair : Option (Text × Text) → Reader → Option Reader
  take_pair none r = some r
  take_pair (some (k, v)) r =
      if text_eq k key_name then start_peer (hex_decode v) r else some (take_field k v r)

  unfoldable pub take_lines : List Text → Reader → Option Reader
  unfolding cut
  take_lines [] r = some r
  take_lines (l ∷ ls) r = elim (take_pair (cut b'=' l) r) [
    | none ↦ none
    | some r' ↦ take_lines ls r'
  ]

  -- The statuses that come with an error are not used.
  unfoldable pub read_lines : List Text → Option (List PeerStatus)
  unfolding take_lines flush
  read_lines ls = elim (take_lines ls no_peers) [ none ↦ none | some r ↦ some (flush r).out ]

  unfoldable pub parse_uapi_peers : Text → Option (List PeerStatus)
  unfolding split_on scan_lines read_lines
  parse_uapi_peers raw =
      if any too_long (split_on 10 raw) then none else read_lines (scan_lines (split_on 10 raw))

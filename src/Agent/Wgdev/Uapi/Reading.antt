-- ===== src/Agent/Wgdev/Uapi/Reading.antt =====
-- What parseUAPIPeers of internal/agent/wgdev/wgdev_darwin.go makes of the lines that wireguard-go
-- writes: one block for each peer, behind the lines of the device.
use home_kai.Base.{
  ℕ, Text, codes, text_eq, text_eq_iff, Bool, true, false, not, ◌&&◌, none, some, ◌≡◌, refl, sym,
  ap, ◌∙◌, List, [], ◌∷◌, ◌++◌, all, any, map, gather, length, ◌==◌, if◌then◌else◌, arith,
  Bool-cases, inl, inr,
}
use mathlib.Core.List.{append_assoc, append-nil}
use home_kai.Base.Int.{ℤ, pos}
use home_kai.Agent.Probe.{PeerStatus, no_status}
use home_kai.Agent.Wgdev.Uapi.{
  cut, parse_int, Reader, stamped, flush, key_name, take_field, take_lines, read_lines,
}
use home_kai.Agent.Wgdev.Uapi.Hex.{hex_encode, is_byte, hex_decode-hex_encode}

abbrev pub Field : Type 0
Field = Text × Text

pub record Block : Type 0 where
  pub key : List ℕ
  pub fields : List Field

abbrev pub line_of : Field → Text
line_of (k, v) = k ++ b'=' ∷ v

abbrev pub block_lines : Block → List Text
block_lines b = line_of (key_name, hex_encode b.key) ∷ map line_of b.fields

-- A name without the separator, which does not start a peer.
abbrev pub is_plain : Field → Bool
is_plain (k, v) = not (any (λ c. c == b'=') k) && not (text_eq k key_name)

abbrev pub is_block : Block → Bool
is_block b = all is_byte b.key && length b.key == 32 && all is_plain b.fields

-- The value of the last field with a name.
abbrev pub last_value {ℓ} : {A : Type ℓ} → (Text → A) → Text → A → List Field → A
last_value read name start [] = start
last_value read name start ((k, v) ∷ fs) =
    last_value read name (if text_eq k name then read v else start) fs

-- The status that a block stands for.
abbrev pub status_from : PeerStatus → ℤ → ℤ → List Field → PeerStatus
status_from st sec nsec fs =
    stamped (last_value parse_int (codes "last_handshake_time_sec") sec fs)
      (last_value parse_int (codes "last_handshake_time_nsec") nsec fs)
      (record st {
        endpoint = last_value (λ v. v) (codes "endpoint") st.endpoint fs;
        rx_bytes = last_value parse_int (codes "rx_bytes") st.rx_bytes fs;
        tx_bytes = last_value parse_int (codes "tx_bytes") st.tx_bytes fs;
      })

abbrev pub status_of_block : (List ℕ → Text) → Block → PeerStatus
status_of_block encode b = status_from (no_status (encode b.key)) (pos 0) (pos 0) b.fields

cut-append :
    (sep : ℕ) (a b : Text) → any (λ c. c == sep) a ≡ false → cut sep (a ++ sep ∷ b) ≡ some (a, b)
unfolding cut
cut-append sep [] b h = ground arith
cut-append sep (c ∷ a) b h = ground (arith, cut-append sep a b)

-- The reader with a current peer.
abbrev reading : List PeerStatus → PeerStatus → ℤ → ℤ → Reader
reading out st sec nsec = record { out = out; cur = some st; sec = sec; nsec = nsec }

abbrev after_fields : List PeerStatus → PeerStatus → ℤ → ℤ → List Field → Reader
after_fields out st sec nsec fs =
    reading out
      (record st {
        endpoint = last_value (λ v. v) (codes "endpoint") st.endpoint fs;
        rx_bytes = last_value parse_int (codes "rx_bytes") st.rx_bytes fs;
        tx_bytes = last_value parse_int (codes "tx_bytes") st.tx_bytes fs;
      })
      (last_value parse_int (codes "last_handshake_time_sec") sec fs)
      (last_value parse_int (codes "last_handshake_time_nsec") nsec fs)

-- One field.
one_field :
    (k v : Text) (out : List PeerStatus) (st : PeerStatus) (sec nsec : ℤ)
    → take_field k v (reading out st sec nsec) ≡ after_fields out st sec nsec ((k, v) ∷ [])
unfolding take_field text_eq
one_field k v out st sec nsec = elim (Bool-cases (text_eq k (codes "endpoint"))) [
  | inl e ↦ rw ((text_eq_iff k (codes "endpoint")).0 e) refl
  | inr e ↦ elim (Bool-cases (text_eq k (codes "last_handshake_time_sec"))) [
    | inl f ↦ rw ((text_eq_iff k (codes "last_handshake_time_sec")).0 f) refl
    | inr f ↦ elim (Bool-cases (text_eq k (codes "last_handshake_time_nsec"))) [
      | inl g ↦ rw ((text_eq_iff k (codes "last_handshake_time_nsec")).0 g) refl
      | inr g ↦ elim (Bool-cases (text_eq k (codes "rx_bytes"))) [
        | inl a ↦ rw ((text_eq_iff k (codes "rx_bytes")).0 a) refl
        | inr a ↦ elim (Bool-cases (text_eq k (codes "tx_bytes"))) [
          | inl b ↦ rw ((text_eq_iff k (codes "tx_bytes")).0 b) refl
          | inr b ↦ rw (e, f, g, a, b) refl
        ]
      ]
    ]
  ]
]

module _ (encode : List ℕ → Text) where
  plain_line :
      (f : Field) (ls : List Text) (r : Reader)
      → is_plain f ≡ true
      → take_lines encode (line_of f ∷ ls) r ≡ take_lines encode ls (take_field f.0 f.1 r)
  unfolding take_lines
  plain_line (k, v) ls r h = ground (arith, cut-append b'=' k v)

  plain_lines :
      (fs : List Field) (ls : List Text) (out : List PeerStatus) (st : PeerStatus) (sec nsec : ℤ)
      → all is_plain fs ≡ true
      → take_lines encode (map line_of fs ++ ls) (reading out st sec nsec)
        ≡ take_lines encode ls (after_fields out st sec nsec fs)
  plain_lines [] ls out st sec nsec h = refl
  plain_lines ((k, v) ∷ fs) ls out st sec nsec h =
      plain_line (k, v) (map line_of fs ++ ls) (reading out st sec nsec) (ground (arith, h))
      ∙ (ap (take_lines encode (map line_of fs ++ ls)) (one_field k v out st sec nsec)
          ∙ plain_lines fs ls out _ _ _ (ground (arith, h)))

  -- A line that starts a peer.
  key_line :
      (key : List ℕ) (ls : List Text) (r : Reader)
      → all is_byte key ≡ true
      → (length key == 32) ≡ true
      → take_lines encode (line_of (key_name, hex_encode key) ∷ ls) r
        ≡ take_lines encode ls (reading (flush r).out (no_status (encode key)) (pos 0) (pos 0))
  unfolding take_lines flush text_eq
  key_line key ls r h l =
      ground (arith, cut-append b'=' key_name (hex_encode key) refl, hex_decode-hex_encode key h)

  flush_block :
      (b : Block) (out : List PeerStatus)
      → (flush (after_fields out (no_status (encode b.key)) (pos 0) (pos 0) b.fields)).out
        ≡ out ++ status_of_block encode b ∷ []
  unfolding flush
  flush_block b out = refl

  -- The reader behind blocks, when it is flushed.
  blocks_read :
      (bs : List Block) (r : Reader)
      → all is_block bs ≡ true
      → (r' : Reader) × (take_lines encode (gather block_lines bs) r ≡ some r')
        × ((flush r').out ≡ (flush r).out ++ map (status_of_block encode) bs)
  unfolding take_lines
  blocks_read [] r h = (r, refl, sym (append-nil _))
  blocks_read (b ∷ bs) r h =
      let r1 = after_fields (flush r).out (no_status (encode b.key)) (pos 0) (pos 0) b.fields in
      let (r2, e, f) = blocks_read bs r1 (ground (arith, h)) in
      (
        r2,
        key_line b.key (map line_of b.fields ++ gather block_lines bs) r (ground (arith, h))
              (ground (arith, h))
            ∙ (plain_lines b.fields (gather block_lines bs) (flush r).out (no_status (encode b.key))
                  (pos 0) (pos 0) (ground (arith, h))
                ∙ e),
        f
            ∙ (ap (λ out. out ++ map (status_of_block encode) bs) (flush_block b (flush r).out)
                ∙ append_assoc (flush r).out (status_of_block encode b ∷ [])
                    (map (status_of_block encode) bs)),
      )

  -- The lines of the device, before any peer.
  abbrev before : ℤ → ℤ → Reader
  before sec nsec = record { out = []; cur = none; sec = sec; nsec = nsec }

  flushed_nothing :
      (sec nsec : ℤ) (out : List PeerStatus) → (flush (before sec nsec)).out ++ out ≡ out
  unfolding flush
  flushed_nothing sec nsec out = refl

  head_field :
      (k v : Text) (sec nsec : ℤ)
      → (sec' : ℤ) × (nsec' : ℤ) × (take_field k v (before sec nsec) ≡ before sec' nsec')
  unfolding take_field
  head_field k v sec nsec =
      let r = take_field k v (before sec nsec) in (r.sec, r.nsec, ground arith)

  head_lines :
      (fs : List Field) (ls : List Text) (sec nsec : ℤ)
      → all is_plain fs ≡ true
      → (sec' : ℤ) × (nsec' : ℤ) × (take_lines encode (map line_of fs ++ ls) (before sec nsec)
          ≡ take_lines encode ls (before sec' nsec'))
  head_lines [] ls sec nsec h = (sec, nsec, refl)
  head_lines ((k, v) ∷ fs) ls sec nsec h =
      let (sec1, nsec1, e) = head_field k v sec nsec in
      let (sec2, nsec2, f) = head_lines fs ls sec1 nsec1 (ground (arith, h)) in
      (
        sec2,
        nsec2,
        plain_line (k, v) (map line_of fs ++ ls) (before sec nsec) (ground (arith, h))
            ∙ (ap (take_lines encode (map line_of fs ++ ls)) e ∙ f),
      )

  -- The lines of the device and of the peers are read as the statuses that the blocks stand for.
  pub read_lines_exact :
      (head : List Field) (bs : List Block)
      → all is_plain head ≡ true
      → all is_block bs ≡ true
      → read_lines encode (map line_of head ++ gather block_lines bs)
        ≡ some (map (status_of_block encode) bs)
  unfolding read_lines
  read_lines_exact head bs h k =
      let (sec, nsec, e) = head_lines head (gather block_lines bs) (pos 0) (pos 0) h in
      let (r, f, g) = blocks_read bs (before sec nsec) k in
      rw (e ∙ f, read_lines)
        (ap some (g ∙ flushed_nothing sec nsec (map (status_of_block encode) bs)))

-- ===== src/Agent/Wgdev/Uapi/Hex.antt =====
-- encoding/hex, as internal/agent/wgdev/wgdev_darwin.go uses it.
use home_kai.Base.{
  ℕ, ◌+◌, ◌-◌, ◌*◌, ◌/◌, ◌%◌, ◌<◌, Text, Bool, true, ◌&&◌, Option, none, some, ◌≡◌, refl, List, [],
  ◌∷◌, all, leb, ltb, if◌then◌else◌, arith,
}

abbrev hex_digit : ℕ → ℕ
hex_digit n = if ltb n 10 then b'0' + n else b'a' + n - 10

-- hex.EncodeToString
unfoldable pub hex_encode : List ℕ → Text
hex_encode [] = []
hex_encode (b ∷ bs) = hex_digit (b / 16) ∷ hex_digit (b % 16) ∷ hex_encode bs

abbrev hex_value : ℕ → Option ℕ
hex_value c =
    if leb b'0' c && leb c b'9'
    then some (c - b'0')
    else if leb b'a' c && leb c b'f'
    then some (c - b'a' + 10)
    else if leb b'A' c && leb c b'F'
    then some (c - b'A' + 10)
    else none

abbrev cons_byte : Option ℕ → Option ℕ → Option (List ℕ) → Option (List ℕ)
cons_byte (some h) (some l) (some bs) = some ((h * 16 + l) ∷ bs)
cons_byte _ _ _ = none

-- hex.DecodeString
unfoldable pub hex_decode : Text → Option (List ℕ)
hex_decode [] = some []
hex_decode (c ∷ []) = none
hex_decode (c ∷ d ∷ s) = let rest = hex_decode s in cons_byte (hex_value c) (hex_value d) rest

abbrev pub is_byte : ℕ → Bool
is_byte b = ltb b 256

hex_value_digit : (n : ℕ) → n < 16 → hex_value (hex_digit n) ≡ some n
hex_value_digit n h = ground arith

pub hex_decode-hex_encode :
    (bs : List ℕ) → all is_byte bs ≡ true → hex_decode (hex_encode bs) ≡ some bs
unfolding hex_decode hex_encode
hex_decode-hex_encode [] h = refl
hex_decode-hex_encode (b ∷ bs) h =
    ground (arith, hex_value_digit (b / 16), hex_value_digit (b % 16), hex_decode-hex_encode bs)

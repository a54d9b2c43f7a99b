-- ===== src/Address.antt =====
-- Addresses in the global state: src/ons/ons_state/ons_state.go, and the client's copies in
-- src/ons_test/sawtooth-ons-test.go.
pub mod Client
pub mod Digest
pub mod Laws
use ons_sawtooth.Base.Logic.{
  ℕ, ◌+◌, ◌-◌, ◌/◌, ◌%◌, [], ◌∷◌, ◌++◌, map, if◌then◌else◌, leb, ltb, ◌&&◌,
}
use ons_sawtooth.Base.Text.{GoString, text, Bytes}
use ons_sawtooth.Base.Slice.{take}

-- `hextable[n]` for a number below 16.
unfoldable pub hex_digit : ℕ → ℕ
hex_digit n = if ltb n 10 then b'0' + n else b'a' + (n - 10)

-- `hex.EncodeToString`
unfoldable pub hex_encode : Bytes → GoString
unfolding hex_digit
hex_encode [] = []
hex_encode (b ∷ bs) = hex_digit (b / 16) ∷ hex_digit (b % 16) ∷ hex_encode bs

-- `strings.ToLower` on a string of ASCII.
unfoldable pub lower : ℕ → ℕ
lower c = if leb b'A' c && leb c b'Z' then c + 32 else c

module _ (sha512 : Bytes → Bytes) where
  -- `hash.Write([]byte(str))` and `hash.Sum(nil)` on a fresh hash.
  unfoldable pub hexdigest : GoString → GoString
  unfolding lower hex_encode
  hexdigest str = map lower (hex_encode (sha512 str))

  -- The digest has 128 characters, so no slice below is out of range.
  unfoldable pub namespace : GoString
  namespace = take 6 (hexdigest (text "ons"))

  unfoldable pub make_address : GoString → GoString
  make_address address_key =
      namespace ++ (take 8 (hexdigest (text "gs1")) ++ take 56 (hexdigest address_key))

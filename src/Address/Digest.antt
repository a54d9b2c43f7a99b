-- ===== src/Address/Digest.antt =====
-- The hexadecimal digest: its length and its alphabet.
use ons_sawtooth.Base.Logic.{ℕ, ◌*◌, ◌/◌, ◌%◌, ◌≤◌, ◌<◌, ◌≡◌, refl, ap, ap₂, [], ◌∷◌, map, arith}
use ons_sawtooth.Base.Text.{GoString, Bytes}
use ons_sawtooth.Base.Slice.{length, take, length-take}
use ons_sawtooth.Sdk.Laws.{AllBytes, IsDigest}
use ons_sawtooth.Address.{hex_digit, hex_encode, lower, hexdigest}

pub length-map : (f : ℕ → ℕ) (xs : GoString) → length (map f xs) ≡ length xs
length-map f [] = refl
length-map f (x ∷ xs) = omega (arith, length-map f xs)

pub length-hex_encode : (bs : Bytes) → length (hex_encode bs) ≡ 2 * length bs
unfolding hex_encode
length-hex_encode [] = refl
length-hex_encode (b ∷ bs) = omega (arith, length-hex_encode bs)

-- A hexadecimal digit has no upper-case form.
lower-hex_digit : (n : ℕ) → n < 16 → lower (hex_digit n) ≡ hex_digit n
unfolding lower hex_digit
lower-hex_digit n h = ground arith

lower-hex_encode : (bs : Bytes) → AllBytes bs → map lower (hex_encode bs) ≡ hex_encode bs
unfolding hex_encode
lower-hex_encode [] h = refl
lower-hex_encode (b ∷ bs) (hb, hs) =
    ap₂ ◌∷◌ (lower-hex_digit (b / 16) (omega arith))
      (ap₂ ◌∷◌ (lower-hex_digit (b % 16) (omega arith)) (lower-hex_encode bs hs))

-- Two byte strings of equal encodings are equal.
hex_digit-injective : (m n : ℕ) → m < 16 → n < 16 → hex_digit m ≡ hex_digit n → m ≡ n
unfolding hex_digit
hex_digit-injective m n hm hn e = ground arith

byte_of_digits : (a b : ℕ) → a / 16 ≡ b / 16 → a % 16 ≡ b % 16 → a ≡ b
byte_of_digits a b p q = omega arith

cons₂_parts :
    (a b c d : ℕ) (xs ys : GoString)
    → ◌≡◌ {A = GoString} (a ∷ b ∷ xs) (c ∷ d ∷ ys)
    → (a ≡ c) × (b ≡ d) × (xs ≡ ys)
cons₂_parts a b c d xs ys e = ground arith

pub hex_encode-injective :
    (xs ys : Bytes) → AllBytes xs → AllBytes ys → hex_encode xs ≡ hex_encode ys → xs ≡ ys
unfolding hex_encode
hex_encode-injective [] [] hx hy e = refl
hex_encode-injective [] (y ∷ ys) hx hy e = cc
hex_encode-injective (x ∷ xs) [] hx hy e = cc
hex_encode-injective (x ∷ xs) (y ∷ ys) (hx, hxs) (hy, hys) e =
    let parts = cons₂_parts _ _ _ _ _ _ e in
    ap₂ ◌∷◌
      (byte_of_digits x y (hex_digit-injective _ _ (omega arith) (omega arith) parts.0)
        (hex_digit-injective _ _ (omega arith) (omega arith) parts.1))
      (hex_encode-injective xs ys hxs hys parts.2)

module _ (sha512 : Bytes → Bytes) (digest : IsDigest sha512) where
  -- With a digest of 64 bytes, the digits of a string are those of its digest: `strings.ToLower`
  -- changes nothing.
  pub hexdigest-eq-hex_encode : (s : GoString) → hexdigest sha512 s ≡ hex_encode (sha512 s)
  unfolding hexdigest
  hexdigest-eq-hex_encode s = lower-hex_encode (sha512 s) (digest.bytes s)

  pub length-hexdigest : (s : GoString) → length (hexdigest sha512 s) ≡ 128
  length-hexdigest s =
      omega
        (arith, ap length (hexdigest-eq-hex_encode s), length-hex_encode (sha512 s), digest.size s)

  pub length-take-hexdigest :
      (n : ℕ) (s : GoString) → n ≤ 128 → length (take n (hexdigest sha512 s)) ≡ n
  length-take-hexdigest n s h =
      length-take n (hexdigest sha512 s) (omega (arith, length-hexdigest s))

  -- The digest shows the hash: texts of one digest have one hash.
  pub hexdigest_faithful :
      (s t : GoString) → hexdigest sha512 s ≡ hexdigest sha512 t → sha512 s ≡ sha512 t
  hexdigest_faithful s t e =
      hex_encode-injective _ _ (digest.bytes s) (digest.bytes t)
        (cc (hexdigest-eq-hex_encode s, hexdigest-eq-hex_encode t))

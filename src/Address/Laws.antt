-- ===== src/Address/Laws.antt =====
-- The length of the addresses, when two are the same, and those of the client.
use ons_sawtooth.Base.Logic.{ℕ, ◌≤◌, ◌≡◌, refl, ap, ◌↔◌, ◌++◌, [], ◌∷◌, arith}
use ons_sawtooth.Base.Text.{GoString, text, Bytes}
use ons_sawtooth.Base.Slice.{take, length, length-append}
use ons_sawtooth.Address.{hexdigest, namespace, make_address}
use ons_sawtooth.Address.Client.{hexdigest_by_string, client_namespace, make_address_by_gs1_code}
use ons_sawtooth.Address.Digest.{length-take-hexdigest}
use ons_sawtooth.Sdk.Laws.{IsDigest}

pub append_cancel : (xs ys zs : GoString) → xs ++ ys ≡ xs ++ zs → ys ≡ zs
append_cancel [] ys zs e = e
append_cancel (x ∷ xs) ys zs e = append_cancel xs ys zs (ground arith)

module _ (sha512 : Bytes → Bytes) where
  -- The client computes the address of a GS1 code as the processor does.
  pub client_address_agrees :
      (gs1_code : GoString)
      → make_address_by_gs1_code sha512 gs1_code ≡ make_address sha512 gs1_code
  unfolding make_address_by_gs1_code make_address hexdigest hexdigest_by_string client_namespace
      namespace
  client_address_agrees gs1_code = refl

  -- Two keys share an address exactly when their digests agree on the first 56 digits.
  pub make_address-eq_iff :
      (a b : GoString)
      → (make_address sha512 a ≡ make_address sha512 b)
        ↔ (take 56 (hexdigest sha512 a) ≡ take 56 (hexdigest sha512 b))
  unfolding make_address
  make_address-eq_iff a b = (
    λ e. append_cancel _ _ _ (append_cancel _ _ _ e),
    λ e. ap (λ t. namespace sha512 ++ (take 8 (hexdigest sha512 (text "gs1")) ++ t)) e,
  )

module _ (sha512 : Bytes → Bytes) (digest : IsDigest sha512) where
  length-part : (n : ℕ) (s : GoString) → n ≤ 128 → length (take n (hexdigest sha512 s)) ≡ n
  length-part = length-take-hexdigest sha512 digest

  pub length-namespace : length (namespace sha512) ≡ 6
  unfolding namespace
  length-namespace = length-part 6 (text "ons") (omega arith)

  -- With a digest of 64 bytes, every address of a GS1 code has the 70 characters that the validator
  -- asks for.
  pub length-make_address : (key : GoString) → length (make_address sha512 key) ≡ 70
  unfolding make_address
  length-make_address key = omega (
    arith,
    length-append {0} (namespace sha512)
        (take 8 (hexdigest sha512 (text "gs1")) ++ take 56 (hexdigest sha512 key)),
    length-append {0} (take 8 (hexdigest sha512 (text "gs1"))) (take 56 (hexdigest sha512 key)),
    length-namespace,
    length-part 8 (text "gs1") (omega arith),
    length-part 56 key (omega arith),
  )

-- ===== src/Sdk/Laws.antt =====
-- What the program relies on in the code that it calls. The state laws speak of one address at a
-- time, as every call of the program does; an address that may not be read, or a call that the
-- validator refuses, is allowed.
use ons_sawtooth.Base.Logic.{◌<◌, ◌≡◌, ◌≢◌, List, [], ◌∷◌, none, some}
use ons_sawtooth.Base.Text.{GoString, Bytes}
use ons_sawtooth.Base.Slice.{Slice, length}
use ons_sawtooth.Base.Outcome.{Error, success, failure}
use ons_sawtooth.Proto.State.{Gs1CodeData, OnsManager, ServiceType}
use ons_sawtooth.Sdk.{Sdk, Codec, fetch}

-- A message has no way to tell an empty slice from a nil one.
abbrev pub wire_slice {ℓ} : {A : Type ℓ} → Slice A → Slice A
wire_slice none = none
wire_slice (some []) = none
wire_slice (some (x ∷ xs)) = some (x ∷ xs)

abbrev pub wire_gs1_code : Gs1CodeData → Gs1CodeData
wire_gs1_code m = record m { records = wire_slice m.records }

abbrev pub wire_ons_manager : OnsManager → OnsManager
wire_ons_manager m = record {
  su_addresses = wire_slice m.su_addresses;
  manager_addresses = wire_slice m.manager_addresses;
}

abbrev pub wire_service_type : ServiceType → ServiceType
wire_service_type m = record m { fields = wire_slice m.fields; types = wire_slice m.types }

abbrev pub AllBytes : Bytes → Type 0
AllBytes [] = Unit
AllBytes (b ∷ bs) = (b < 256) × AllBytes bs

-- What was marshalled unmarshals to the message as it stood on the wire.
abbrev pub RoundTrips : {A : Type 0} → (A → A) → Codec A → Type 0
RoundTrips {A} wire c =
    (m : A) (b : Bytes) → c.marshal (some m) ≡ success b → c.unmarshal b ≡ success (wire m)

-- SHA-512 yields 64 bytes.
pub record IsDigest (sha512 : Bytes → Bytes) : Type 0 where
  pub size : (b : Bytes) → length (sha512 b) ≡ 64
  pub bytes : (b : Bytes) → AllBytes (sha512 b)

pub record IsLawful (sdk : Sdk) : Type 0 where
  pub digest : IsDigest sdk.sha512
  pub gs1_code_round_trips : RoundTrips wire_gs1_code sdk.gs1_code_codec
  pub ons_manager_round_trips : RoundTrips wire_ons_manager sdk.ons_manager_codec
  pub service_type_round_trips : RoundTrips wire_service_type sdk.service_type_codec
  -- A message with a string that is not empty marshals to some bytes.
  pub gs1_code_marshals_some :
      (m : Gs1CodeData) → m.gs1_code ≢ [] → sdk.gs1_code_codec.marshal (some m) ≢ success []
  -- A write that names the address it set has written it, if the address can be read at all.
  pub set_writes :
      (a : GoString) (d v : Bytes) (s : sdk.Store) (x : GoString) (xs : List GoString)
      → (sdk.set_state ((a, d) ∷ []) s).0 ≡ success (x ∷ xs)
      → fetch sdk a s ≡ success v
      → fetch sdk a (sdk.set_state ((a, d) ∷ []) s).1 ≡ success d
  -- It touches no other address.
  pub set_keeps :
      (a b : GoString) (d : Bytes) (s : sdk.Store)
      → a ≢ b
      → fetch sdk b (sdk.set_state ((a, d) ∷ []) s).1 ≡ fetch sdk b s
  -- A refused write, or one that names no address, has written nothing.
  pub set_refused :
      (a : GoString) (d : Bytes) (s : sdk.Store) (e : Error)
      → (sdk.set_state ((a, d) ∷ []) s).0 ≡ failure e
      → (sdk.set_state ((a, d) ∷ []) s).1 ≡ s
  pub set_nothing :
      (a : GoString) (d : Bytes) (s : sdk.Store)
      → (sdk.set_state ((a, d) ∷ []) s).0 ≡ success []
      → (sdk.set_state ((a, d) ∷ []) s).1 ≡ s
  pub delete_clears :
      (a : GoString) (v : Bytes) (s : sdk.Store) (x : GoString) (xs : List GoString)
      → (sdk.delete_state (a ∷ []) s).0 ≡ success (x ∷ xs)
      → fetch sdk a s ≡ success v
      → fetch sdk a (sdk.delete_state (a ∷ []) s).1 ≡ success []
  pub delete_keeps :
      (a b : GoString) (s : sdk.Store)
      → a ≢ b
      → fetch sdk b (sdk.delete_state (a ∷ []) s).1 ≡ fetch sdk b s
  pub delete_refused :
      (a : GoString) (s : sdk.Store) (e : Error)
      → (sdk.delete_state (a ∷ []) s).0 ≡ failure e
      → (sdk.delete_state (a ∷ []) s).1 ≡ s
  pub delete_nothing :
      (a : GoString) (s : sdk.Store)
      → (sdk.delete_state (a ∷ []) s).0 ≡ success []
      → (sdk.delete_state (a ∷ []) s).1 ≡ s

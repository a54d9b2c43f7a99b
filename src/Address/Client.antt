-- ===== src/Address/Client.antt =====
-- The test client's own address functions (src/ons_test/sawtooth-ons-test.go).
use ons_sawtooth.Base.Logic.{◌++◌, map, Option}
use ons_sawtooth.Base.Text.{GoString, text, Bytes}
use ons_sawtooth.Base.Slice.{take}
use ons_sawtooth.Base.Outcome.{Reply, success, failure}
use ons_sawtooth.Proto.State.{ServiceType}
use ons_sawtooth.Sdk.{Codec}
use ons_sawtooth.Address.{lower, hex_encode}

module _ (sha512 : Bytes → Bytes) where
  unfoldable pub hexdigest_by_string : GoString → GoString
  unfolding lower hex_encode
  hexdigest_by_string str = map lower (hex_encode (sha512 str))

  unfoldable pub hexdigest_by_byte : Bytes → GoString
  unfolding lower hex_encode
  hexdigest_by_byte bytes = map lower (hex_encode (sha512 bytes))

  unfoldable pub client_namespace : GoString
  client_namespace = take 6 (hexdigest_by_string (text "ons"))

  unfoldable pub make_address_by_gs1_code : GoString → GoString
  make_address_by_gs1_code gs1_code =
      client_namespace
      ++ (take 8 (hexdigest_by_string (text "gs1")) ++ take 56 (hexdigest_by_string gs1_code))

  -- `GetONSManagerAddress` of the client.
  unfoldable pub client_ons_manager_address : GoString
  client_ons_manager_address =
      client_namespace ++ take 64 (hexdigest_by_string (text "ons_manager"))

  abbrev pub service_type_address : GoString → Bytes → GoString
  service_type_address requestor marshaled_service_type =
      client_namespace
      ++ (take 8 (hexdigest_by_string (text "service-type"))
          ++ (take 16 (hexdigest_by_string requestor)
              ++ take 40 (hexdigest_by_byte marshaled_service_type)))

  unfoldable pub make_address_by_service_type :
      Codec ServiceType → GoString → Option ServiceType → Reply GoString
  make_address_by_service_type codec requestor service_type = elim (codec.marshal service_type) [
    | failure e ↦ failure e
    | success marshaled ↦ success (service_type_address requestor marshaled)
  ]

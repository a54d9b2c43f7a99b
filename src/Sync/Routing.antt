-- ===== src/Sync/Routing.antt =====
-- Which table of the mirror the addresses of the processor and of the client go to.
use mathlib.Core.List.{append_assoc}
use ons_sawtooth.Base.Logic.{◌<◌, ◌≡◌, ◌≢◌, ◌↔◌, ◌++◌, arith}
use ons_sawtooth.Base.Text.{GoString, text, Bytes}
use ons_sawtooth.Base.Slice.{take, drop, length, length-append, take-append, take-take-drop}
use ons_sawtooth.Base.Outcome.{ok, panic}
use ons_sawtooth.Address.{hexdigest, namespace, make_address}
use ons_sawtooth.Address.Client.{
  hexdigest_by_string, hexdigest_by_byte, client_namespace, service_type_address,
  client_ons_manager_address,
}
use ons_sawtooth.Address.Digest.{length-take-hexdigest}
use ons_sawtooth.Address.Laws.{length-namespace, append_cancel}
use ons_sawtooth.Sdk.Laws.{IsDigest}
use ons_sawtooth.Sync.Table.{
  gs1_code_table, service_type_table, none_table, table_of_prefix, sync_hexdigest,
  get_table_idx_by_address,
}

-- The look-up panics exactly on an address of fewer than 14 bytes.
pub get_table_idx_by_address-panic_iff :
    (sha512 : Bytes → Bytes) (address : GoString)
    → (get_table_idx_by_address sha512 address ≡ panic) ↔ (length address < 14)
unfolding get_table_idx_by_address
get_table_idx_by_address-panic_iff sha512 address = ground arith

module _ (sha512 : Bytes → Bytes) (digest : IsDigest sha512) where
  family : GoString → GoString
  family s = take 8 (hexdigest sha512 s)

  length-head : (s : GoString) → length (namespace sha512 ++ family s) ≡ 14
  unfolding family
  length-head s = omega (
    arith,
    length-append {0} (namespace sha512) (family s),
    length-namespace sha512 digest,
    length-take-hexdigest sha512 digest 8 s (omega arith),
  )

  -- An address is routed by the eight digits behind the namespace.
  routed :
      (s rest : GoString)
      → get_table_idx_by_address sha512 (namespace sha512 ++ (family s ++ rest))
        ≡ ok (table_of_prefix sha512 (namespace sha512) (namespace sha512 ++ family s))
  unfolding get_table_idx_by_address namespace hexdigest sync_hexdigest
  routed s rest = rw (← append_assoc (namespace sha512) (family s) rest) (
      ground (
        arith,
        length-head s,
        length-append {0} (namespace sha512 ++ family s) rest,
        take-append {0} 14 (namespace sha512 ++ family s) rest (length-head s),
      ))

  -- With a digest of 64 bytes, the address that `SaveGS1Code` writes to goes to the table of GS1
  -- codes.
  pub gs1_code_routed :
      (gs1_code : GoString)
      → get_table_idx_by_address sha512 (make_address sha512 gs1_code) ≡ ok gs1_code_table
  unfolding make_address family namespace hexdigest sync_hexdigest
  gs1_code_routed gs1_code =
      ground (arith, routed (text "gs1") (take 56 (hexdigest sha512 gs1_code)))

  differs :
      (s t : GoString)
      → family s ≢ family t
      → namespace sha512 ++ family s ≢ namespace sha512 ++ family t
  differs s t ne e = ne (append_cancel (namespace sha512) (family s) (family t) e)

  -- With a digest of 64 bytes, the address of a service type goes to the table of service types, if
  -- its eight digits are not those of "gs1".
  pub service_type_routed :
      (requestor : GoString) (marshaled : Bytes)
      → take 8 (hexdigest sha512 (text "service-type")) ≢ take 8 (hexdigest sha512 (text "gs1"))
      → get_table_idx_by_address sha512 (service_type_address sha512 requestor marshaled)
        ≡ ok service_type_table
  unfolding family namespace hexdigest sync_hexdigest client_namespace hexdigest_by_string
      hexdigest_by_byte
  service_type_routed requestor marshaled ne = ground (
    arith,
    routed (text "service-type") (
        take 16 (hexdigest_by_string sha512 requestor)
        ++ take 40 (hexdigest_by_byte sha512 marshaled)),
    differs (text "service-type") (text "gs1") ne,
  )

  -- With a digest of 64 bytes, the manager's address belongs to no table, if its digits are neither
  -- those of "gs1" nor those of "service-type".
  pub ons_manager_unrouted :
      take 8 (hexdigest sha512 (text "ons_manager")) ≢ take 8 (hexdigest sha512 (text "gs1"))
      → take 8 (hexdigest sha512 (text "ons_manager"))
        ≢ take 8 (hexdigest sha512 (text "service-type"))
      → get_table_idx_by_address sha512 (client_ons_manager_address sha512) ≡ ok none_table
  unfolding client_ons_manager_address family namespace hexdigest sync_hexdigest client_namespace
      hexdigest_by_string
  ons_manager_unrouted ne₁ ne₂ =
      rw (take-take-drop 8 56 (hexdigest_by_string sha512 (text "ons_manager"))) (
        ground (
          arith,
          routed (text "ons_manager") (take 56 (drop 8 (hexdigest sha512 (text "ons_manager")))),
          differs (text "ons_manager") (text "gs1") ne₁,
          differs (text "ons_manager") (text "service-type") ne₂,
        ))

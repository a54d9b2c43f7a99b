-- ===== src/Registry.antt =====
-- Reading and writing GS1 codes in the global state: src/ons/ons_state/ons_state.go.
pub mod Laws
use ons_sawtooth.Base.Logic.{List, [], ◌∷◌, ◌++◌, Option, none, some}
use ons_sawtooth.Base.Text.{GoString, text, Bytes}
use ons_sawtooth.Base.Outcome.{
  Error, invalid_transaction, internal, Reply, success, failure, pure, fail, fail_if, or_return,
  ◌>>=◌, ◌>>◌,
}
use ons_sawtooth.Proto.State.{Gs1CodeData}
use ons_sawtooth.Sdk.{Sdk, bytes_at}
use ons_sawtooth.World.{Call, context_get, context_set, context_delete}
use ons_sawtooth.Address.{make_address}
use ons_sawtooth.Manager.Storage.{is_empty, marshalled}

module _ (sdk : Sdk) where
  unfoldable pub unpack_gs1_code : Bytes → Reply Gs1CodeData
  unpack_gs1_code bytes = elim (sdk.gs1_code_codec.unmarshal bytes) [
    | success m ↦ success m
    | failure e ↦ failure (internal (text "Failed to unmarshal GS1 Code: %v" ++ sdk.error_text e))
  ]

  -- No bytes: there is no such code.
  abbrev pub read_gs1_code : GoString → Bytes → Call sdk (Option Gs1CodeData)
  read_gs1_code address [] = pure none
  read_gs1_code address (b ∷ bs) = elim (unpack_gs1_code (b ∷ bs)) [
    | success m ↦ pure (some m)
    | failure _ ↦ fail (invalid_transaction (text "Faied to UnpackGS1Code, address: " ++ address))
  ]

  unfoldable pub load_gs1_code : GoString → Call sdk (Option Gs1CodeData)
  unfolding unpack_gs1_code
  load_gs1_code gs1_code = do
    let address = make_address sdk.sha512 gs1_code
    results ← or_return (← context_get sdk (address ∷ []))
    read_gs1_code address (bytes_at address results)

  unfoldable pub save_gs1_code : Gs1CodeData → Call sdk (Unit {0})
  save_gs1_code gs1_code_data = do
    let address = make_address sdk.sha512 gs1_code_data.gs1_code
    bytes ←
        marshalled sdk (text "Failed to serialize GS1 Code data:")
          (sdk.gs1_code_codec.marshal (some gs1_code_data))
    addresses ← or_return (← context_set sdk ((address, bytes) ∷ []))
    fail_if (is_empty addresses) (internal (text "No addresses in set response"))

  -- A refused deletion is reported as an internal error.
  abbrev pub deleted : GoString → Reply (List GoString) → Call sdk (List GoString)
  deleted what (success addresses) = pure addresses
  deleted what (failure e) = fail (internal (what ++ sdk.error_text e))

  unfoldable pub delete_gs1_code : GoString → Call sdk (Unit {0})
  delete_gs1_code gs1_code = do
    let address = make_address sdk.sha512 gs1_code
    results ← deleted (text "Failed to detele GS1 Code data:") (← context_delete sdk (address ∷ []))
    fail_if (is_empty results) (internal (text "GS1 Code data was not deleted:<nil>"))

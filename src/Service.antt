-- ===== src/Service.antt =====
-- Reading and writing service types: src/ons/ons_service/ons_service.go.
pub mod Laws
use ons_sawtooth.Base.Logic.{[], ◌∷◌, ◌++◌, Bool, false, Option, none, some, not}
use ons_sawtooth.Base.Text.{GoString, text, Bytes}
use ons_sawtooth.Base.Outcome.{
  invalid_transaction, internal, Reply, success, failure, pure, fail, fail_if, or_return, ◌>>=◌,
}
use ons_sawtooth.Proto.State.{ServiceType}
use ons_sawtooth.Sdk.{Sdk, bytes_at}
use ons_sawtooth.World.{Call, context_get, context_set, context_delete}
use ons_sawtooth.Manager.Storage.{is_empty, marshalled}
use ons_sawtooth.Registry.{deleted}

module _ (sdk : Sdk) where
  unfoldable pub unpack_service_type : Bytes → Reply ServiceType
  unpack_service_type bytes = elim (sdk.service_type_codec.unmarshal bytes) [
    | success m ↦ success m
    | failure e ↦
        failure (internal (text "Failed to unmarshal service type: %v" ++ sdk.error_text e))
  ]

  abbrev pub read_service_type : GoString → Bytes → Call sdk (Option ServiceType)
  read_service_type address [] = pure none
  read_service_type address (b ∷ bs) = elim (unpack_service_type (b ∷ bs)) [
    | success m ↦ pure (some m)
    | failure _ ↦
        fail (invalid_transaction (text "Faied to UnpackServiceType, address: " ++ address))
  ]

  unfoldable pub load_service_type : GoString → Call sdk (Option ServiceType)
  unfolding unpack_service_type
  load_service_type address = do
    results ← or_return (← context_get sdk (address ∷ []))
    read_service_type address (bytes_at address results)

  -- An address that cannot be read counts as free.
  unfoldable pub check_address : GoString → Call sdk Bool
  check_address address = do
    reply ← context_get sdk (address ∷ [])
    elim reply [
      | success results ↦ pure (not (is_empty (bytes_at address results)))
      | failure _ ↦ pure false
    ]

  unfoldable pub save_service_type : GoString → Option ServiceType → Call sdk (Unit {0})
  save_service_type address service_type_data = do
    bytes ←
        marshalled sdk (text "Failed to serialize service type data:")
          (sdk.service_type_codec.marshal service_type_data)
    addresses ← or_return (← context_set sdk ((address, bytes) ∷ []))
    fail_if (is_empty addresses) (internal (text "No address in set response"))

  unfoldable pub delete_service_type : GoString → Call sdk (Unit {0})
  delete_service_type address = do
    results ←
        deleted sdk (text "Failed to detele service type:") (← context_delete sdk (address ∷ []))
    fail_if (is_empty results) (internal (text "The Service type was not deleted:<nil>"))

-- ===== src/Manager/Storage.antt =====
-- The stored manager message: its address, reading and writing it.
use ons_sawtooth.Base.Logic.{
  List, [], ◌∷◌, ◌++◌, Bool, true, false, Option, none, some, if◌then◌else◌,
}
use ons_sawtooth.Base.Text.{GoString, text, Bytes, ◌==◌}
use ons_sawtooth.Base.Slice.{take}
use ons_sawtooth.Base.Outcome.{
  invalid_transaction, internal, Reply, success, failure, ok, pure, fail, fail_if, or_return, ◌>>=◌,
}
use ons_sawtooth.Proto.State.{OnsManager}
use ons_sawtooth.Sdk.{Sdk, bytes_at}
use ons_sawtooth.World.{Call, context_get, context_set}
use ons_sawtooth.Address.{hexdigest, namespace}

-- `len(addresses) == 0`
abbrev pub is_empty {ℓ} : {A : Type ℓ} → List A → Bool
is_empty [] = true
is_empty (x ∷ xs) = false

module _ (sdk : Sdk) where
  -- `SetSudoAddress`: the address is set once, at the start.
  unfoldable pub set_sudo_address : GoString → Call sdk Bool
  set_sudo_address address w =
      if w.sudo_address == text "empty"
      then (ok true, record w { sudo_address = address })
      else (ok false, w)

  unfoldable pub ons_manager_address : GoString
  ons_manager_address = namespace sdk.sha512 ++ take 64 (hexdigest sdk.sha512 (text "ons_manager"))

  -- `getONSManagerAddress` keeps the address in a variable, "empty" before the first call.
  unfoldable pub get_ons_manager_address : Call sdk GoString
  get_ons_manager_address w =
      if w.ons_manager_address == text "empty"
      then (ok ons_manager_address, record w { ons_manager_address = ons_manager_address })
      else (ok w.ons_manager_address, w)

  unfoldable pub unpack_ons_manager : Bytes → Reply OnsManager
  unpack_ons_manager bytes = elim (sdk.ons_manager_codec.unmarshal bytes) [
    | success m ↦ success m
    | failure e ↦
        failure (internal (text "Failed to unmarshal ONS Manager: %v" ++ sdk.error_text e))
  ]

  abbrev pub read_ons_manager : GoString → Bytes → Call sdk (Option OnsManager)
  read_ons_manager address [] = pure none
  read_ons_manager address (b ∷ bs) = elim (unpack_ons_manager (b ∷ bs)) [
    | success m ↦ pure (some m)
    | failure _ ↦ fail (invalid_transaction (text "Faied to UnpackGS1Code, address: " ++ address))
  ]

  unfoldable pub load_ons_manager : Call sdk (Option OnsManager)
  unfolding unpack_ons_manager get_ons_manager_address
  load_ons_manager = do
    address ← get_ons_manager_address
    results ← or_return (← context_get sdk (address ∷ []))
    read_ons_manager address (bytes_at address results)

  abbrev pub marshalled : GoString → Reply Bytes → Call sdk Bytes
  marshalled what (success bytes) = pure bytes
  marshalled what (failure e) = fail (internal (what ++ sdk.error_text e))

  unfoldable pub save_ons_manager : GoString → OnsManager → Call sdk (Unit {0})
  unfolding get_ons_manager_address
  save_ons_manager requestor ons_manager_data = do
    address ← get_ons_manager_address
    bytes ←
        marshalled (text "Failed to serialize ONS Manager:")
          (sdk.ons_manager_codec.marshal (some ons_manager_data))
    addresses ← or_return (← context_set sdk ((address, bytes) ∷ []))
    fail_if (is_empty addresses) (internal (text "No addresses in set response"))

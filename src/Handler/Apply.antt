-- ===== src/Handler/Apply.antt =====
-- `Apply`: the payload is unpacked and handed to the handler of its type.
use ons_sawtooth.Base.Logic.{List, [], ◌∷◌, ◌++◌}
use ons_sawtooth.Base.Text.{GoString, text, Bytes}
use ons_sawtooth.Base.Outcome.{
  invalid_transaction, internal, Reply, success, failure, fail, or_return, ◌>>=◌,
}
use ons_sawtooth.Proto.Payload.{
  OnsTransactionType, register_gs1code, deregister_gs1code, add_record, remove_record,
  register_servicetype, deregister_servicetype, change_gs1code_state, change_record_state,
  add_manager, remove_manager, add_sumanager, remove_sumanager, op_manager, other_transaction_type,
  SendOnsTransactionPayload,
}
use ons_sawtooth.Sdk.{Sdk}
use ons_sawtooth.World.{Call}
use ons_sawtooth.Address.{namespace}
use ons_sawtooth.Handler.Codes.{
  apply_register_gs1_code, apply_deregister_gs1_code, apply_change_gs1_code_state,
}
use ons_sawtooth.Handler.Records.{apply_add_record, apply_remove_record, apply_change_record_state}
use ons_sawtooth.Handler.Services.{apply_register_service_type, apply_deregister_service_type}
use ons_sawtooth.Handler.Managers.{
  apply_add_manager, apply_remove_manager, apply_add_su_manager, apply_remove_su_manager,
  apply_op_manager,
}

-- What the handler tells the validator about itself.
abbrev pub family_name : GoString
family_name = text "ons"

abbrev pub family_versions : List GoString
family_versions = text "1.0" ∷ []

module _ (sdk : Sdk) where
  abbrev pub namespaces : List GoString
  namespaces = namespace sdk.sha512 ∷ []

  unfoldable pub unpack_payload : Bytes → Reply SendOnsTransactionPayload
  unpack_payload bytes = elim (sdk.payload_codec.unmarshal bytes) [
    | success p ↦ success p
    | failure e ↦
        failure (internal (text "Failed to unmarshal ONSTransaction: %v" ++ sdk.error_text e))
  ]

  unfoldable pub dispatch :
      OnsTransactionType → SendOnsTransactionPayload → GoString → Call sdk (Unit {0})
  dispatch op_manager p requestor = apply_op_manager sdk p.op_manager_data requestor
  dispatch register_gs1code p requestor = apply_register_gs1_code sdk p.register_gs1_code requestor
  dispatch deregister_gs1code p requestor =
      apply_deregister_gs1_code sdk p.deregister_gs1_code requestor
  dispatch add_record p requestor = apply_add_record sdk p.add_record_data requestor
  dispatch remove_record p requestor = apply_remove_record sdk p.remove_record_data requestor
  dispatch register_servicetype p requestor =
      apply_register_service_type sdk p.register_service_type requestor
  dispatch deregister_servicetype p requestor =
      apply_deregister_service_type sdk p.deregister_service_type requestor
  dispatch change_gs1code_state p requestor =
      apply_change_gs1_code_state sdk p.change_gs1_code_state_data requestor
  dispatch change_record_state p requestor =
      apply_change_record_state sdk p.change_record_state_data requestor
  dispatch add_manager p requestor = apply_add_manager sdk p.add_manager_data requestor
  dispatch remove_manager p requestor = apply_remove_manager sdk p.remove_manager_data requestor
  dispatch add_sumanager p requestor = apply_add_su_manager sdk p.add_sumanager_data requestor
  dispatch remove_sumanager p requestor =
      apply_remove_su_manager sdk p.remove_sumanager_data requestor
  dispatch (other_transaction_type n) p requestor = fail (
      invalid_transaction (
        text "Invalid TransactionType: '"
        ++ (sdk.enum_name (other_transaction_type n) ++ text "'")))

  -- The request's signer and payload.
  unfoldable pub apply : GoString → Bytes → Call sdk (Unit {0})
  apply requestor payload_bytes = do
    payload ← or_return (unpack_payload payload_bytes)
    dispatch payload.transaction_type payload requestor

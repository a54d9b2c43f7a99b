-- ===== src/Client.antt =====
-- The payloads that the command line client sends: src/ons_test/sawtooth-ons-test.go. What
-- `GenerateServiceType` reads from a file is an argument. The builders return no error.
pub mod Requests
pub mod Command
pub mod Targets
pub mod Query
pub mod Queries
pub mod Batch
pub mod Batches
pub mod ServiceTypeFile
pub mod FieldOrder
use ons_sawtooth.Base.Logic.{ℕ, Option, none, some}
use ons_sawtooth.Base.Text.{GoString}
use ons_sawtooth.Proto.State.{ServiceType, record_state_of_int32, gs1_code_state_of_int32}
use ons_sawtooth.Proto.Payload.{
  register_gs1code, deregister_gs1code, add_record, remove_record, register_servicetype,
  deregister_servicetype, change_gs1code_state, change_record_state, add_manager, remove_manager,
  add_sumanager, remove_sumanager, op_manager, SendOnsTransactionPayload,
}

-- The zero value of the message, which a composite literal completes. Its transaction type is the
-- one of number 0.
abbrev zero_payload : SendOnsTransactionPayload
zero_payload = record {
  transaction_type = register_gs1code;
  register_gs1_code = none;
  deregister_gs1_code = none;
  add_record_data = none;
  remove_record_data = none;
  register_service_type = none;
  deregister_service_type = none;
  change_gs1_code_state_data = none;
  change_record_state_data = none;
  add_manager_data = none;
  remove_manager_data = none;
  add_sumanager_data = none;
  remove_sumanager_data = none;
  op_manager_data = none;
}

abbrev pub make_op_manager_payload : ℕ → SendOnsTransactionPayload
make_op_manager_payload op = record zero_payload {
  transaction_type = op_manager;
  op_manager_data = some (record { op = op });
}

abbrev pub make_register_gs1_code_payload : GoString → GoString → SendOnsTransactionPayload
make_register_gs1_code_payload gs1_code owner_address = record zero_payload {
  transaction_type = register_gs1code;
  register_gs1_code = some (record { gs1_code = gs1_code; owner_id = owner_address });
}

abbrev pub make_deregister_gs1_code_payload : GoString → SendOnsTransactionPayload
make_deregister_gs1_code_payload gs1_code = record zero_payload {
  transaction_type = deregister_gs1code;
  deregister_gs1_code = some (record { gs1_code = gs1_code });
}

abbrev pub make_add_record_payload : GoString → ℕ → GoString → GoString → SendOnsTransactionPayload
make_add_record_payload gs1_code flags service regexp = record zero_payload {
  transaction_type = add_record;
  add_record_data = some (record {
    gs1_code = gs1_code;
    record_data = some (record { flags = flags; service = service; regexp = regexp });
  });
}

abbrev pub make_remove_record_payload : GoString → ℕ → SendOnsTransactionPayload
make_remove_record_payload gs1_code remove_idx = record zero_payload {
  transaction_type = remove_record;
  remove_record_data = some (record { gs1_code = gs1_code; index = remove_idx });
}

abbrev pub make_register_service_type_payload : ServiceType → GoString → SendOnsTransactionPayload
make_register_service_type_payload service_type address = record zero_payload {
  transaction_type = register_servicetype;
  register_service_type = some (record { address = address; service_type = some service_type });
}

abbrev pub make_deregister_service_type_payload : GoString → SendOnsTransactionPayload
make_deregister_service_type_payload address = record zero_payload {
  transaction_type = deregister_servicetype;
  deregister_service_type = some (record { address = address });
}

-- The state is the number given on the command line.
abbrev pub make_change_gstate_payload : GoString → ℕ → SendOnsTransactionPayload
make_change_gstate_payload gs1_code state = record zero_payload {
  transaction_type = change_gs1code_state;
  change_gs1_code_state_data =
      some (record { gs1_code = gs1_code; state = gs1_code_state_of_int32 state });
}

abbrev pub make_change_rstate_payload : GoString → ℕ → ℕ → SendOnsTransactionPayload
make_change_rstate_payload gs1_code record_idx state = record zero_payload {
  transaction_type = change_record_state;
  change_record_state_data =
      some
        (record { gs1_code = gs1_code; index = record_idx; state = record_state_of_int32 state });
}

abbrev pub make_add_manager_payload : GoString → GoString → SendOnsTransactionPayload
make_add_manager_payload gs1_code address = record zero_payload {
  transaction_type = add_manager;
  add_manager_data = some (record { gs1_code = gs1_code; address = address });
}

abbrev pub make_remove_manager_payload : GoString → SendOnsTransactionPayload
make_remove_manager_payload gs1_code = record zero_payload {
  transaction_type = remove_manager;
  remove_manager_data = some (record { gs1_code = gs1_code });
}

abbrev pub make_add_su_manager_payload : GoString → SendOnsTransactionPayload
make_add_su_manager_payload address = record zero_payload {
  transaction_type = add_sumanager;
  add_sumanager_data = some (record { address = address });
}

abbrev pub make_remove_su_manager_payload : GoString → SendOnsTransactionPayload
make_remove_su_manager_payload address = record zero_payload {
  transaction_type = remove_sumanager;
  remove_sumanager_data = some (record { address = address });
}

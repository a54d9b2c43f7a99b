-- ===== src/Proto/Getters.antt =====
-- The getters of the generated messages that the handlers call: the field, or its zero value on a
-- nil pointer.
use ons_sawtooth.Base.Logic.{ℕ, [], Option, none, some}
use ons_sawtooth.Base.Text.{GoString}
use ons_sawtooth.Proto.State.{Gs1CodeState, gs1code_none, RecordState, record_inactive}
use ons_sawtooth.Proto.Payload.{
  RegisterGs1CodeTransactionData, DeregisterGs1CodeTransactionData, RecordTranactionData,
  AddRecordTransactionData, RemoveRecordTransactionData, ChangeGs1CodeStateTransactionData,
  ChangeRecordStateTransactionData, AddManagerTransactionData, RemoveManagerTransactionData,
  AddSuManagerTransactionData, RemoveSuManagerTransactionData, OpManagerTransactionData,
}

abbrev pub get_gs1_code_of_register_gs1_code : Option RegisterGs1CodeTransactionData → GoString
get_gs1_code_of_register_gs1_code none = []
get_gs1_code_of_register_gs1_code (some m) = m.gs1_code

abbrev pub get_owner_id_of_register_gs1_code : Option RegisterGs1CodeTransactionData → GoString
get_owner_id_of_register_gs1_code none = []
get_owner_id_of_register_gs1_code (some m) = m.owner_id

abbrev pub get_gs1_code_of_deregister_gs1_code : Option DeregisterGs1CodeTransactionData → GoString
get_gs1_code_of_deregister_gs1_code none = []
get_gs1_code_of_deregister_gs1_code (some m) = m.gs1_code

abbrev pub get_flags_of_record_data : Option RecordTranactionData → ℕ
get_flags_of_record_data none = 0
get_flags_of_record_data (some m) = m.flags

abbrev pub get_service_of_record_data : Option RecordTranactionData → GoString
get_service_of_record_data none = []
get_service_of_record_data (some m) = m.service

abbrev pub get_regexp_of_record_data : Option RecordTranactionData → GoString
get_regexp_of_record_data none = []
get_regexp_of_record_data (some m) = m.regexp

abbrev pub get_gs1_code_of_add_record : Option AddRecordTransactionData → GoString
get_gs1_code_of_add_record none = []
get_gs1_code_of_add_record (some m) = m.gs1_code

abbrev pub get_record_data_of_add_record :
    Option AddRecordTransactionData → Option RecordTranactionData
get_record_data_of_add_record none = none
get_record_data_of_add_record (some m) = m.record_data

abbrev pub get_gs1_code_of_remove_record : Option RemoveRecordTransactionData → GoString
get_gs1_code_of_remove_record none = []
get_gs1_code_of_remove_record (some m) = m.gs1_code

abbrev pub get_index_of_remove_record : Option RemoveRecordTransactionData → ℕ
get_index_of_remove_record none = 0
get_index_of_remove_record (some m) = m.index

abbrev pub get_gs1_code_of_change_gs1_code_state :
    Option ChangeGs1CodeStateTransactionData → GoString
get_gs1_code_of_change_gs1_code_state none = []
get_gs1_code_of_change_gs1_code_state (some m) = m.gs1_code

abbrev pub get_state_of_change_gs1_code_state :
    Option ChangeGs1CodeStateTransactionData → Gs1CodeState
get_state_of_change_gs1_code_state none = gs1code_none
get_state_of_change_gs1_code_state (some m) = m.state

abbrev pub get_gs1_code_of_change_record_state : Option ChangeRecordStateTransactionData → GoString
get_gs1_code_of_change_record_state none = []
get_gs1_code_of_change_record_state (some m) = m.gs1_code

abbrev pub get_index_of_change_record_state : Option ChangeRecordStateTransactionData → ℕ
get_index_of_change_record_state none = 0
get_index_of_change_record_state (some m) = m.index

abbrev pub get_state_of_change_record_state : Option ChangeRecordStateTransactionData → RecordState
get_state_of_change_record_state none = record_inactive
get_state_of_change_record_state (some m) = m.state

abbrev pub get_gs1_code_of_add_manager : Option AddManagerTransactionData → GoString
get_gs1_code_of_add_manager none = []
get_gs1_code_of_add_manager (some m) = m.gs1_code

abbrev pub get_address_of_add_manager : Option AddManagerTransactionData → GoString
get_address_of_add_manager none = []
get_address_of_add_manager (some m) = m.address

abbrev pub get_gs1_code_of_remove_manager : Option RemoveManagerTransactionData → GoString
get_gs1_code_of_remove_manager none = []
get_gs1_code_of_remove_manager (some m) = m.gs1_code

abbrev pub get_address_of_add_sumanager : Option AddSuManagerTransactionData → GoString
get_address_of_add_sumanager none = []
get_address_of_add_sumanager (some m) = m.address

abbrev pub get_address_of_remove_sumanager : Option RemoveSuManagerTransactionData → GoString
get_address_of_remove_sumanager none = []
get_address_of_remove_sumanager (some m) = m.address

abbrev pub get_op_of_op_manager : Option OpManagerTransactionData → ℕ
get_op_of_op_manager none = 0
get_op_of_op_manager (some m) = m.op

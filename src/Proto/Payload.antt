-- ===== src/Proto/Payload.antt =====
-- The transaction payload (src/protobuf/ons_pb2/ons.pb.go, lines 72 to 103 and 480 to 1290). A
-- message inside a message is a pointer, so it may be nil: `none`.
use ons_sawtooth.Base.Logic.{ℕ, Option}
use ons_sawtooth.Base.Text.{GoString}
use ons_sawtooth.Proto.State.{ServiceType, Gs1CodeState, RecordState}

pub data OnsTransactionType : Type 0 where
  register_gs1code deregister_gs1code add_record remove_record : OnsTransactionType
  register_servicetype deregister_servicetype : OnsTransactionType
  change_gs1code_state change_record_state : OnsTransactionType
  add_manager remove_manager add_sumanager remove_sumanager op_manager : OnsTransactionType
  other_transaction_type : ℕ → OnsTransactionType

pub record RegisterGs1CodeTransactionData : Type 0 where
  pub gs1_code : GoString
  pub owner_id : GoString

pub record DeregisterGs1CodeTransactionData : Type 0 where
  pub gs1_code : GoString

pub record RecordTranactionData : Type 0 where
  pub flags : ℕ
  pub service : GoString
  pub regexp : GoString

pub record AddRecordTransactionData : Type 0 where
  pub gs1_code : GoString
  pub record_data : Option RecordTranactionData

pub record RemoveRecordTransactionData : Type 0 where
  pub gs1_code : GoString
  pub index : ℕ

pub record RegisterServiceTypeTransactionData : Type 0 where
  pub address : GoString
  pub service_type : Option ServiceType

pub record DeregisterServiceTypeTransactionData : Type 0 where
  pub address : GoString

pub record ChangeGs1CodeStateTransactionData : Type 0 where
  pub gs1_code : GoString
  pub state : Gs1CodeState

pub record ChangeRecordStateTransactionData : Type 0 where
  pub gs1_code : GoString
  pub index : ℕ
  pub state : RecordState

pub record AddManagerTransactionData : Type 0 where
  pub gs1_code : GoString
  pub address : GoString

pub record RemoveManagerTransactionData : Type 0 where
  pub gs1_code : GoString

pub record AddSuManagerTransactionData : Type 0 where
  pub address : GoString

pub record RemoveSuManagerTransactionData : Type 0 where
  pub address : GoString

pub record OpManagerTransactionData : Type 0 where
  pub op : ℕ

pub record SendOnsTransactionPayload : Type 0 where
  pub transaction_type : OnsTransactionType
  pub register_gs1_code : Option RegisterGs1CodeTransactionData
  pub deregister_gs1_code : Option DeregisterGs1CodeTransactionData
  pub add_record_data : Option AddRecordTransactionData
  pub remove_record_data : Option RemoveRecordTransactionData
  pub register_service_type : Option RegisterServiceTypeTransactionData
  pub deregister_service_type : Option DeregisterServiceTypeTransactionData
  pub change_gs1_code_state_data : Option ChangeGs1CodeStateTransactionData
  pub change_record_state_data : Option ChangeRecordStateTransactionData
  pub add_manager_data : Option AddManagerTransactionData
  pub remove_manager_data : Option RemoveManagerTransactionData
  pub add_sumanager_data : Option AddSuManagerTransactionData
  pub remove_sumanager_data : Option RemoveSuManagerTransactionData
  pub op_manager_data : Option OpManagerTransactionData

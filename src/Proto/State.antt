-- ===== src/Proto/State.antt =====
-- The messages that the ledger stores (src/protobuf/ons_pb2/ons.pb.go, lines 21 to 478).
use ons_sawtooth.Base.Logic.{ℕ, if◌then◌else◌, eqb}
use ons_sawtooth.Base.Text.{GoString}
use ons_sawtooth.Base.Slice.{Slice}

-- An enumeration of proto3 is open: any other int32 is kept.
pub data RecordState : Type 0 where
  record_inactive record_active : RecordState
  other_record_state : ℕ → RecordState

pub data Gs1CodeState : Type 0 where
  gs1code_none gs1code_inactive gs1code_active : Gs1CodeState
  other_gs1_code_state : ℕ → Gs1CodeState

-- `Record_RecordState(state)` and `GS1CodeData_GS1CodeState(state)`.
unfoldable pub record_state_of_int32 : ℕ → RecordState
record_state_of_int32 n =
    if eqb n 0 then record_inactive else if eqb n 1 then record_active else other_record_state n

unfoldable pub gs1_code_state_of_int32 : ℕ → Gs1CodeState
gs1_code_state_of_int32 n =
    if eqb n 0
    then gs1code_none
    else if eqb n 1
    then gs1code_inactive
    else if eqb n 2
    then gs1code_active
    else other_gs1_code_state n

pub record OnsGs1CodeManager : Type 0 where
  pub gs1_code : GoString
  pub address : GoString

pub record OnsManager : Type 0 where
  pub su_addresses : Slice OnsGs1CodeManager
  pub manager_addresses : Slice OnsGs1CodeManager

pub record ServiceTypeField : Type 0 where
  pub key : GoString
  pub value : GoString

pub record ServiceType : Type 0 where
  pub address : GoString
  pub fields : Slice ServiceTypeField
  pub types : Slice ServiceTypeField
  pub provider : GoString

pub record Record : Type 0 where
  pub flags : ℕ
  pub service : GoString
  pub regexp : GoString
  pub state : RecordState
  pub provider : GoString

pub record Gs1CodeData : Type 0 where
  pub gs1_code : GoString
  pub owner_id : GoString
  pub records : Slice Record
  pub state : Gs1CodeState

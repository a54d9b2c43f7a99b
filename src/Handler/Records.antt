-- ===== src/Handler/Records.antt =====
-- Transactions on the records of a GS1 code.
use ons_sawtooth.Base.Logic.{ℕ, ◌+◌, ◌%◌, ◌^◌, ◌++◌, List, [], Option, none, some, true, false, leb}
use ons_sawtooth.Base.Text.{GoString, text, ◌==◌, string_of_rune}
use ons_sawtooth.Base.Slice.{elements, length, get_elem?, set, take, drop}
use ons_sawtooth.Base.Outcome.{Error, invalid_transaction, pure, fail, crash, fail_if, ◌>>=◌, ◌>>◌}
use ons_sawtooth.Proto.State.{Gs1CodeData, Record, RecordState, record_inactive}
use ons_sawtooth.Proto.Payload.{
  AddRecordTransactionData, RemoveRecordTransactionData, ChangeRecordStateTransactionData,
}
use ons_sawtooth.Proto.Getters.{
  get_flags_of_record_data, get_service_of_record_data, get_regexp_of_record_data,
  get_gs1_code_of_add_record, get_record_data_of_add_record, get_gs1_code_of_remove_record,
  get_index_of_remove_record, get_gs1_code_of_change_record_state, get_index_of_change_record_state,
  get_state_of_change_record_state,
}
use ons_sawtooth.Sdk.{Sdk}
use ons_sawtooth.World.{Call}
use ons_sawtooth.Manager.Cache.{permission_manager, permission_su_manager}
use ons_sawtooth.Manager.Edit.{append_slice}
use ons_sawtooth.Registry.{load_gs1_code, save_gs1_code}
use ons_sawtooth.Handler.Permission.{if_permitted}
use ons_sawtooth.Handler.Codes.{existing}

-- The record that `applyAddRecord` stores: inactive, and provided by the requestor.
abbrev pub new_record : Option AddRecordTransactionData → GoString → Record
new_record request requestor =
    let r = get_record_data_of_add_record request in
    record {
      flags = get_flags_of_record_data r;
      service = get_service_of_record_data r;
      regexp = get_regexp_of_record_data r;
      state = record_inactive;
      provider = requestor;
    }

abbrev pub u32 : ℕ → ℕ
u32 n = n % 2 ^ 32

-- `uint32(len(records))`
abbrev pub record_count : Gs1CodeData → ℕ
record_count m = u32 (length (elements m.records))

abbrev pub invalid_index : ℕ → ℕ → Error
invalid_index idx record_len = invalid_transaction (
    text "Invalid index: "
    ++ (string_of_rune idx ++ (text ", record count: " ++ string_of_rune record_len)))

-- `append(records[0:idx], records[idx+1:]...)`, where `idx+1` is a uint32.
abbrev pub without_index : ℕ → List Record → List Record
without_index idx records = take idx records ++ drop (u32 (idx + 1)) records

abbrev pub with_state : RecordState → ℕ → List Record → List Record
with_state state idx records = elim (get_elem? records idx) [
  | none ↦ records
  | some r ↦ set records idx (record r { state = state })
]

module _ (sdk : Sdk) where
  unfoldable pub apply_add_record : Option AddRecordTransactionData → GoString → Call sdk (Unit {0})
  apply_add_record request requestor =
      if_permitted sdk (get_gs1_code_of_add_record request) requestor permission_manager
        (text "applyAddRecord : Authentication failed")
        (do
          found ← load_gs1_code sdk (get_gs1_code_of_add_record request)
          gs1_code_data ← existing sdk found
          save_gs1_code sdk (record gs1_code_data {
            records = append_slice gs1_code_data.records (new_record request requestor);
          }))

  -- `records[idx].Provider`: the index is used before it is checked.
  abbrev pub provider_at : ℕ → List Record → Call sdk GoString
  provider_at idx records = elim (get_elem? records idx) [ none ↦ crash | some r ↦ pure r.provider ]

  abbrev pub check_provider : GoString → GoString → Call sdk (Unit {0})
  check_provider provider requestor = elim (provider == requestor) [
    | true ↦ pure tt
    | false ↦ fail (invalid_transaction (text "applyRemoveRecord : mismatch provider address"))
  ]

  abbrev pub remove_at : ℕ → GoString → Gs1CodeData → Call sdk (Unit {0})
  remove_at idx requestor gs1_code_data = do
    provider ← provider_at idx (elements gs1_code_data.records)
    check_provider provider requestor
    fail_if (leb (record_count gs1_code_data) idx) (invalid_index idx (record_count gs1_code_data))
    save_gs1_code sdk (record gs1_code_data {
      records = some (without_index idx (elements gs1_code_data.records));
    })

  unfoldable pub apply_remove_record :
      Option RemoveRecordTransactionData → GoString → Call sdk (Unit {0})
  apply_remove_record request requestor =
      if_permitted sdk (get_gs1_code_of_remove_record request) requestor permission_manager
        (text "applyRemoveRecord : Authentication failed")
        (do
          found ← load_gs1_code sdk (get_gs1_code_of_remove_record request)
          gs1_code_data ← existing sdk found
          remove_at (get_index_of_remove_record request) requestor gs1_code_data)

  abbrev pub change_state_at : ℕ → RecordState → Gs1CodeData → Call sdk (Unit {0})
  change_state_at idx state gs1_code_data = do
    fail_if (leb (record_count gs1_code_data) idx) (invalid_index idx (record_count gs1_code_data))
    save_gs1_code sdk (record gs1_code_data {
      records = some (with_state state idx (elements gs1_code_data.records));
    })

  unfoldable pub apply_change_record_state :
      Option ChangeRecordStateTransactionData → GoString → Call sdk (Unit {0})
  apply_change_record_state request requestor =
      if_permitted sdk [] requestor permission_su_manager
        (text "applyChangeRecordState : Authentication failed")
        (do
          found ← load_gs1_code sdk (get_gs1_code_of_change_record_state request)
          gs1_code_data ← existing sdk found
          change_state_at (get_index_of_change_record_state request)
              (get_state_of_change_record_state request) gs1_code_data)

-- ===== src/Sync/Mirror.antt =====
-- The package variables of src/ons_sync and the database functions of sync.go.
use ons_sawtooth.Base.Logic.{
  ℕ, List, [], ◌∷◌, Bool, true, false, eqb, leb, ltb, Option, none, some, if◌then◌else◌,
}
use ons_sawtooth.Base.Text.{GoString, text}
use ons_sawtooth.Base.Slice.{get_elem?, length}
use ons_sawtooth.Base.Dict.{Dict, lookup}
use ons_sawtooth.Base.Outcome.{
  Error, other_error, Reply, success, failure, ok, err, panic, Action, pure, crash, gets, modify,
  fail_if, or_return, ◌>>=◌, ◌>>◌,
}
use ons_sawtooth.Sync.Database.{
  BlockInfo, Document, gs1_code_document, service_type_document, block_info_document, Key, name,
  index, gs1_codes, service_types, latest_updated_block_info, Database,
}

-- `ONSEvent`; a state change is a map of strings.
pub record OnsEvent : Type 0 where
  pub block_num : ℕ
  pub block_id : GoString
  pub previous_block_id : GoString
  pub state_changes : List (Dict GoString)

pub record Mirror (Db : Type 0) : Type 0 where
  pub db_name : GoString
  -- `g_db_session` and `g_mutex` are not nil.
  pub has_session : Bool
  pub has_mutex : Bool
  pub latest_block_id : GoString
  pub latest_block_num : ℕ
  pub current_latest_ons_event : Option OnsEvent
  -- The block ids that `GetBlockDeltas` has handed to the subscriber.
  pub asked : List GoString
  pub db : Db

-- "0000000000000000": the number of zeros is important.
abbrev pub zero_block_id : GoString
zero_block_id = text "0000000000000000"

-- The package variables as the program starts.
unfoldable pub initial_mirror : {Db : Type 0} → Db → Mirror Db
initial_mirror db = record {
  db_name = [];
  has_session = false;
  has_mutex = false;
  latest_block_id = zero_block_id;
  latest_block_num = 0;
  current_latest_ons_event = none;
  asked = [];
  db = db;
}

abbrev pub table_names : List GoString
table_names = gs1_codes ∷ service_types ∷ latest_updated_block_info ∷ []

abbrev pub not_connected : Error
not_connected = other_error (text "Not connected.")

abbrev pub zero_block_info : BlockInfo
zero_block_info = record {
  block_num = 0;
  block_id = zero_block_id;
  previous_block_id = zero_block_id;
}

-- `results[op] == 1`
unfoldable pub check_normal_op_result : Dict ℕ → GoString → Bool
check_normal_op_result results op = elim (lookup op results) [ none ↦ false | some n ↦ eqb n 1 ]

-- `record["BlockNum"].(float64)`: the rows of block information have no such field.
abbrev pub row_block_num : Document → Option ℕ
row_block_num (gs1_code_document e) = some e.block_num
row_block_num (service_type_document e) = some e.block_num
row_block_num (block_info_document b) = none

module _ (base : Database) where
  abbrev pub Job : Type 0 → Type 0
  Job = Action (Mirror base.Db)

  -- What the end of `DBConnect` leaves in the variables.
  unfoldable pub db_connected : GoString → Job (Unit {0})
  db_connected db_name m =
      (ok tt, record m { db_name = db_name; has_session = true; has_mutex = true })

  unfoldable pub db_disconnect : Job (Unit {0})
  db_disconnect m =
      if m.has_session
      then (ok tt, record m { has_session = false; db_name = []; has_mutex = false })
      else (ok tt, m)

  -- `if g_db_session == nil { … return errors.New("Not connected.") }`
  abbrev pub require_session : Job (Unit {0})
  require_session m = if m.has_session then (ok tt, m) else (err not_connected, m)

  abbrev pub run_get : GoString → Key → Job (Reply (Reply Document))
  run_get table key m = (ok (base.get m.db_name table key m.db), m)

  abbrev pub run_insert : GoString → Document → Job (Reply (Dict ℕ))
  run_insert table document m =
      let (r, s) = base.insert m.db_name table document m.db in (ok r, record m { db = s })

  abbrev pub run_update : GoString → Document → Job (Reply (Dict ℕ))
  run_update table document m =
      let (r, s) = base.update m.db_name table document m.db in (ok r, record m { db = s })

  abbrev pub run_filter : GoString → GoString → Job (Reply (Dict ℕ))
  run_filter table address m = (ok (base.filter m.db_name table address m.db), m)

  unfoldable pub db_init_latest_updated_block_info : Job ℕ
  db_init_latest_updated_block_info = do
    require_session
    counts ←
        or_return (← run_insert latest_updated_block_info (block_info_document zero_block_info))
    modify (λ m. record m { latest_block_num = 0 })
    gets (λ m. m.latest_block_num)

  unfoldable pub db_update_latest_updated_block_info : ℕ → GoString → GoString → Job (Unit {0})
  db_update_latest_updated_block_info block_num block_id prev_block_id = do
    require_session
    counts ←
        or_return
          (← run_update latest_updated_block_info (
            block_info_document (record {
              block_num = block_num;
              block_id = block_id;
              previous_block_id = prev_block_id;
            })))
    pure tt

  -- The variable for the block's id is given the previous id.
  abbrev pub take_block_info : Document → Job ℕ
  take_block_info (block_info_document b) = do
    modify (λ m. record m { latest_block_num = b.block_num; latest_block_id = b.previous_block_id })
    gets (λ m. m.latest_block_num)
  take_block_info (gs1_code_document e) = crash
  take_block_info (service_type_document e) = crash

  unfoldable pub db_get_latest_updated_block_info : Job ℕ
  db_get_latest_updated_block_info = do
    require_session
    found ← or_return (← run_get latest_updated_block_info (index 0))
    elim found [ success row ↦ take_block_info row | failure e ↦ db_init_latest_updated_block_info ]

  -- `g_mutex.Lock()` follows a pointer.
  abbrev pub lock_mutex : Job (Unit {0})
  lock_mutex m = if m.has_mutex then (ok tt, m) else (panic, m)

  -- `g_table_names[table_idx]`
  abbrev pub table_name_at : ℕ → Job GoString
  table_name_at table_idx = elim (get_elem? table_names table_idx) [
    | none ↦ crash
    | some table ↦ pure table
  ]

  abbrev pub insert_item : GoString → Document → Job (Unit {0})
  insert_item table v = do counts ← or_return (← run_insert table v); pure tt

  -- Data of an old block is skipped.
  abbrev pub update_item : GoString → ℕ → Document → Document → Job (Unit {0})
  update_item table block_num v row = elim (row_block_num row) [
    | none ↦ crash
    | some old ↦ elim (leb block_num old) [
      | true ↦ pure tt
      | false ↦ (do counts ← or_return (← run_update table v); pure tt)
    ]
  ]

  -- What holds the mutex: nothing else writes a row in between.
  unfoldable pub db_update_or_insert : ℕ → GoString → ℕ → Document → Job (Unit {0})
  db_update_or_insert table_idx pk_v block_num v = do
    require_session
    fail_if (ltb (length table_names) table_idx) (other_error (text "Invalid table index"))
    lock_mutex
    table ← table_name_at table_idx
    found ← or_return (← run_get table (name pk_v))
    elim found [ failure e ↦ insert_item table v | success row ↦ update_item table block_num v row ]

  -- The rows are looked for, first in one table and then in the other.
  unfoldable pub db_delete_address : GoString → Job (Unit {0})
  db_delete_address address = do
    require_session
    counts ← or_return (← run_filter gs1_codes address)
    elim (check_normal_op_result counts (text "deleted")) [
      | true ↦ pure tt
      | false ↦ (do more ← or_return (← run_filter service_types address); pure tt)
    ]

-- ===== src/Sync/Faults.antt =====
-- What the database calls do without a connection, and with a table index out of range.
use ons_sawtooth.Base.Logic.{ℕ, ◌<◌, ◌≡◌, true, false, arith}
use ons_sawtooth.Base.Text.{GoString, text}
use ons_sawtooth.Base.Outcome.{other_error, err, panic}
use ons_sawtooth.Sync.Database.{Document, Database}
use ons_sawtooth.Sync.Mirror.{
  Mirror, not_connected, db_init_latest_updated_block_info, db_update_latest_updated_block_info,
  db_get_latest_updated_block_info, db_update_or_insert, db_delete_address,
}

module _ (base : Database) where
  -- After a disconnection, and before a connection, every call of the database gives the error "Not
  -- connected.", whatever its arguments, and leaves the variables and the database as they were.
  pub unconnected_refused :
      (m : Mirror base.Db)
      → m.has_session ≡ false
      → (db_init_latest_updated_block_info base m ≡ (err not_connected, m))
        × ((n : ℕ) (id prev : GoString)
            → db_update_latest_updated_block_info base n id prev m ≡ (err not_connected, m))
        × (db_get_latest_updated_block_info base m ≡ (err not_connected, m))
        × ((idx n : ℕ) (pk : GoString) (d : Document)
            → db_update_or_insert base idx pk n d m ≡ (err not_connected, m))
        × ((address : GoString) → db_delete_address base address m ≡ (err not_connected, m))
  unfolding db_init_latest_updated_block_info db_update_latest_updated_block_info
      db_get_latest_updated_block_info db_update_or_insert db_delete_address
  unconnected_refused m e = (
    ground arith,
    (λ n id prev. ground arith),
    ground arith,
    (λ idx n pk d. ground arith),
    (λ address. ground arith),
  )

  -- On a connected mirror the guard of the table index refuses an index above the number of tables
  -- with an error, and lets the number itself through, at which the call panics; nothing changes in
  -- either case.
  pub table_index_guard :
      (idx n : ℕ) (pk : GoString) (d : Document) (m : Mirror base.Db)
      → m.has_session ≡ true
      → m.has_mutex ≡ true
      → (3 < idx
          → db_update_or_insert base idx pk n d m
            ≡ (err (other_error (text "Invalid table index")), m))
        × (db_update_or_insert base 3 pk n d m ≡ (panic, m))
  unfolding db_update_or_insert
  table_index_guard idx n pk d m s x = ((λ above. ground arith), ground arith)

-- ===== src/Sync/Table.antt =====
-- The tables of src/ons_sync/sync.go, and which of them an address belongs to.
use ons_sawtooth.Base.Logic.{ℕ, ◌++◌, map, if◌then◌else◌, ltb}
use ons_sawtooth.Base.Text.{GoString, text, Bytes, ◌==◌}
use ons_sawtooth.Base.Slice.{take, length}
use ons_sawtooth.Base.Outcome.{Outcome, ok, panic, hang}
use ons_sawtooth.Address.{lower, hex_encode}

-- The constants that `iota` numbers.
abbrev pub gs1_code_table : ℕ
gs1_code_table = 0

abbrev pub service_type_table : ℕ
service_type_table = 1

abbrev pub latest_block_info : ℕ
latest_block_info = 2

abbrev pub none_table : ℕ
none_table = 3

-- `s[:n]` of a string, which panics past its end.
abbrev pub prefix : ℕ → GoString → Outcome GoString
prefix n s = if ltb (length s) n then panic else ok (take n s)

module _ (sha512 : Bytes → Bytes) where
  -- `hexdigest` of sync.go.
  unfoldable pub sync_hexdigest : GoString → GoString
  unfolding lower hex_encode
  sync_hexdigest str = map lower (hex_encode (sha512 str))

  abbrev pub table_of_prefix : GoString → GoString → ℕ
  table_of_prefix namespace head =
      if head == (namespace ++ take 8 (sync_hexdigest (text "gs1")))
      then gs1_code_table
      else if head == (namespace ++ take 8 (sync_hexdigest (text "service-type")))
      then service_type_table
      else none_table

  -- `GetTableIdxByAddress`: `address[:14]` comes before either comparison.
  unfoldable pub get_table_idx_by_address : GoString → Outcome ℕ
  get_table_idx_by_address address = elim (prefix 14 address) [
    | ok head ↦ ok (table_of_prefix (take 6 (sync_hexdigest (text "ons"))) head)
    | Outcome.err e ↦ Outcome.err e
    | panic ↦ panic
    | hang ↦ hang
  ]

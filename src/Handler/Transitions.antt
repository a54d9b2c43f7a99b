-- ===== src/Handler/Transitions.antt =====
-- What each kind of transaction on a code or its records does to what is known of the code, as a
-- relation between before and after.
use ons_sawtooth.Base.Logic.{ℕ, ◌≡◌, List, [], ◌∷◌, ◌++◌, Option, none, some}
use ons_sawtooth.Base.Text.{GoString}
use ons_sawtooth.Base.Slice.{elements, length}
use ons_sawtooth.Proto.State.{
  Gs1CodeData, Record, RecordState, record_inactive, Gs1CodeState, gs1code_inactive,
}

abbrev pub CodeRelation : Type 1
CodeRelation = Option Gs1CodeData → Option Gs1CodeData → Type 0

-- An unknown code becomes known with its owner, inactive and without records.
pub data Registers (gs1_code owner_id : GoString)
    : Option Gs1CodeData → Option Gs1CodeData → Type 0 where
  registers : Registers gs1_code owner_id none (
      some (record {
        gs1_code = gs1_code;
        owner_id = owner_id;
        records = none;
        state = gs1code_inactive;
      }))

-- A code of this owner is forgotten.
pub data Deregisters (owner_id : GoString) : Option Gs1CodeData → Option Gs1CodeData → Type 0 where
  deregisters : (m : Gs1CodeData) → m.owner_id ≡ owner_id → Deregisters owner_id (some m) none

-- A known code gets this state, and keeps the rest.
pub data SetsState (s : Gs1CodeState) : Option Gs1CodeData → Option Gs1CodeData → Type 0 where
  sets_state : (m : Gs1CodeData) → SetsState s (some m) (some (record m { state = s }))

-- A known code gets, after its records, the inactive record of this content and provider.
pub data Adds (flags : ℕ) (service regexp provider : GoString)
    : Option Gs1CodeData → Option Gs1CodeData → Type 0 where
  adds :
      (m : Gs1CodeData)
      → Adds flags service regexp provider (some m) (
          some (record m {
            records = some (
                elements m.records
                ++ (record {
                  flags = flags;
                  service = service;
                  regexp = regexp;
                  state = record_inactive;
                  provider = provider;
                }
                    ∷ []));
          }))

-- A known code loses the record behind the first `index` ones, which this provider provides.
pub data Removes (index : ℕ) (provider : GoString)
    : Option Gs1CodeData → Option Gs1CodeData → Type 0 where
  removes :
      (m : Gs1CodeData) (before : List Record) (r : Record) (after : List Record)
      → elements m.records ≡ before ++ (r ∷ after)
      → length before ≡ index
      → r.provider ≡ provider
      → Removes index provider (some m) (some (record m { records = some (before ++ after) }))

-- In a known code the record behind the first `index` ones gets this state.
pub data SetsRecordState (index : ℕ) (s : RecordState)
    : Option Gs1CodeData → Option Gs1CodeData → Type 0 where
  sets_record_state :
      (m : Gs1CodeData) (before : List Record) (r : Record) (after : List Record)
      → elements m.records ≡ before ++ (r ∷ after)
      → length before ≡ index
      → SetsRecordState index s
          (some m)
          (some (record m { records = some (before ++ (record r { state = s } ∷ after)) }))

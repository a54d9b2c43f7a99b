-- ===== src/Sync/Database.antt =====
-- The documents of the mirror, and the RethinkDB calls that src/ons_sync/sync.go makes: a parameter,
-- with what the documentation says of them as named laws.
use ons_sawtooth.Base.Logic.{ℕ, ◌≡◌, ◌⊎◌, Bool, false, ◌&&◌, eqb, Option, none, some, if◌then◌else◌}
use ons_sawtooth.Base.Text.{GoString, text, ◌==◌}
use ons_sawtooth.Base.Dict.{Dict}
use ons_sawtooth.Base.Outcome.{Error, Reply, success, failure}
use ons_sawtooth.Proto.State.{Gs1CodeData, ServiceType}

-- `ONSGS1CodeEvent` and `ONSServiceTypeEvent`, with the embedded message as a field. A block number
-- is a float64 that holds a whole number.
pub record Gs1CodeEvent : Type 0 where
  pub gs1_code_data : Gs1CodeData
  pub address : GoString
  pub block_num : ℕ

pub record ServiceTypeEvent : Type 0 where
  pub service_type : ServiceType
  pub block_num : ℕ

-- The map that is written to the table of block information, all but its index.
pub record BlockInfo : Type 0 where
  pub block_num : ℕ
  pub block_id : GoString
  pub previous_block_id : GoString

pub data Document : Type 0 where
  gs1_code_document : Gs1CodeEvent → Document
  service_type_document : ServiceTypeEvent → Document
  block_info_document : BlockInfo → Document

pub data Key : Type 0 where
  name : GoString → Key
  index : ℕ → Key

abbrev pub same_key : Key → Key → Bool
same_key (name a) (name b) = a == b
same_key (name a) (index n) = false
same_key (index m) (name b) = false
same_key (index m) (index n) = eqb m n

-- `g_table_names`, and by `g_table_map` the field that is the primary key of each table.
abbrev pub gs1_codes : GoString
gs1_codes = text "gs1_codes"

abbrev pub service_types : GoString
service_types = text "service_types"

abbrev pub latest_updated_block_info : GoString
latest_updated_block_info = text "latest_updated_block_info"

abbrev pub table_of : Document → GoString
table_of (gs1_code_document e) = gs1_codes
table_of (service_type_document e) = service_types
table_of (block_info_document b) = latest_updated_block_info

abbrev pub key_of : Document → Key
key_of (gs1_code_document e) = name e.gs1_code_data.gs1_code
key_of (service_type_document e) = name e.service_type.address
key_of (block_info_document b) = index 0

-- What `Run` and `One` give: a query may be refused, and a cursor may hold nothing. Of a write, the
-- counts that `One` leaves in a map.
pub record Database : Type 1 where
  pub Db : Type 0
  -- `DB(name).Table(table).Get(key)`
  pub get : GoString → GoString → Key → Db → Reply (Reply Document)
  -- `DB(name).Table(table).Insert(document)` and `.Update(document)`
  pub insert : GoString → GoString → Document → Db → Reply (Dict ℕ) × Db
  pub update : GoString → GoString → Document → Db → Reply (Dict ℕ) × Db
  -- `DB(name).Table(table).Filter({"Address": address})`, a query that only reads
  pub filter : GoString → GoString → GoString → Db → Reply (Dict ℕ)
  -- The rows of a database, by table and key: the view by which the laws speak of it.
  pub rows : GoString → Db → GoString → Key → Option Document

abbrev pub Rows : Type 0
Rows = GoString → Key → Option Document

abbrev pub is_at : Document → GoString → Key → Bool
is_at d table key = (table_of d == table) && same_key (key_of d) key

-- An insertion does not replace a row that has the key.
abbrev pub inserted : Document → Rows → Rows
inserted d f table key =
    if is_at d table key
    then elim (f table key) [ none ↦ some d | some old ↦ some old ]
    else f table key

-- An update of a whole table by a document that names its key changes the row with that key, since
-- no key can be changed; all fields are given, so the row is the document.
abbrev pub updated : Document → Rows → Rows
updated d f table key =
    if is_at d table key
    then elim (f table key) [ none ↦ none | some old ↦ some d ]
    else f table key

abbrev pub SameRows : Rows → Rows → Type 0
SameRows f g = (table : GoString) (key : Key) → f table key ≡ g table key

-- A write that is answered has been done; of one that failed this is not known.
pub record IsLawfulDatabase (base : Database) : Type 0 where
  pub get_found :
      (n table : GoString) (key : Key) (s : base.Db) (d : Document)
      → base.get n table key s ≡ success (success d)
      → base.rows n s table key ≡ some d
  pub get_missing :
      (n table : GoString) (key : Key) (s : base.Db) (e : Error)
      → base.get n table key s ≡ success (failure e)
      → base.rows n s table key ≡ none
  pub insert_done :
      (n : GoString) (d : Document) (s : base.Db) (counts : Dict ℕ)
      → (base.insert n (table_of d) d s).0 ≡ success counts
      → SameRows (base.rows n (base.insert n (table_of d) d s).1) (inserted d (base.rows n s))
  pub insert_failed :
      (n : GoString) (d : Document) (s : base.Db) (e : Error)
      → (base.insert n (table_of d) d s).0 ≡ failure e
      → SameRows (base.rows n (base.insert n (table_of d) d s).1) (base.rows n s)
        ⊎ SameRows (base.rows n (base.insert n (table_of d) d s).1) (inserted d (base.rows n s))
  pub update_done :
      (n : GoString) (d : Document) (s : base.Db) (counts : Dict ℕ)
      → (base.update n (table_of d) d s).0 ≡ success counts
      → SameRows (base.rows n (base.update n (table_of d) d s).1) (updated d (base.rows n s))
  pub update_failed :
      (n : GoString) (d : Document) (s : base.Db) (e : Error)
      → (base.update n (table_of d) d s).0 ≡ failure e
      → SameRows (base.rows n (base.update n (table_of d) d s).1) (base.rows n s)
        ⊎ SameRows (base.rows n (base.update n (table_of d) d s).1) (updated d (base.rows n s))

-- ===== src/Sync/Newest.antt =====
-- `DBUpdateOrInsert` against its reference: a row gives way to an item of a later block.
use ons_sawtooth.Base.Logic.{
  ℕ, ◌<◌, ◌≤◌, ◌≡◌, refl, subst, true, ltb, Option, none, some, if◌then◌else◌, arith,
}
use ons_sawtooth.Base.Text.{GoString}
use ons_sawtooth.Sync.Database.{
  Gs1CodeEvent, ServiceTypeEvent, Document, gs1_code_document, service_type_document,
  block_info_document, Key, name, index, same_key, table_of, key_of, Rows, is_at, inserted, updated,
  SameRows,
}

-- What an event sets: the two kinds of documents that the mirror is given.
pub data Item : Type 0 where
  gs1_code_item : Gs1CodeEvent → Item
  service_type_item : ServiceTypeEvent → Item

abbrev pub document_of : Item → Document
document_of (gs1_code_item e) = gs1_code_document e
document_of (service_type_item e) = service_type_document e

abbrev pub num_of : Item → ℕ
num_of (gs1_code_item e) = e.block_num
num_of (service_type_item e) = e.block_num

-- The block number of a row; of the block information too.
abbrev pub document_num : Document → ℕ
document_num (gs1_code_document e) = e.block_num
document_num (service_type_document e) = e.block_num
document_num (block_info_document b) = b.block_num

-- The reference: what a key holds after an item of it.
abbrev pub newest : Option Document → Item → Option Document
newest none item = some (document_of item)
newest (some old) item =
    if ltb (document_num old) (num_of item) then some (document_of item) else some old

abbrev pub with_newest : Item → Rows → Rows
with_newest item f table key =
    if is_at (document_of item) table key then newest (f table key) item else f table key

pub num_of-document : (x : Item) → document_num (document_of x) ≡ num_of x
num_of-document (gs1_code_item e) = refl
num_of-document (service_type_item e) = refl

-- Every row stands in the table of its kind.
abbrev pub IsTidy : Rows → Type 0
IsTidy f = (table : GoString) (key : Key) (d : Document) → f table key ≡ some d → table_of d ≡ table

same_key-eq : (a b : Key) → same_key a b ≡ true → a ≡ b
same_key-eq (name a) (name b) e = ground arith
same_key-eq (name a) (index n) e = cc
same_key-eq (index m) (name b) e = cc
same_key-eq (index m) (index n) e = ground arith

same_key_refl : (a : Key) → same_key a a ≡ true
same_key_refl (name a) = ground arith
same_key_refl (index n) = ground arith

pub is_at-eq :
    (d : Document) (table : GoString) (key : Key)
    → is_at d table key ≡ true
    → (table_of d ≡ table) × (key_of d ≡ key)
is_at-eq d table key e = ground (arith, same_key-eq (key_of d) key)

-- What stands at the item's own key stands wherever `is_at` points.
own_row :
    (d : Document) (f : Rows) (r : Option Document) (table : GoString) (key : Key)
    → f (table_of d) (key_of d) ≡ r
    → is_at d table key ≡ true
    → f table key ≡ r
own_row d f r table key e at =
    let (t, k) = is_at-eq d table key at in
    subst (λ x. f x key ≡ r) t (subst (λ y. f (table_of d) y ≡ r) k e)

module _ (item : Item) (f : Rows) where
  pub inserted-newest :
      f (table_of (document_of item)) (key_of (document_of item)) ≡ none
      → SameRows (inserted (document_of item) f) (with_newest item f)
  inserted-newest e table key = ground (arith, own_row (document_of item) f none table key e)

  pub updated-newest :
      (old : Document)
      → f (table_of (document_of item)) (key_of (document_of item)) ≡ some old
      → document_num old < num_of item
      → SameRows (updated (document_of item) f) (with_newest item f)
  updated-newest old e later table key =
      ground (arith, own_row (document_of item) f (some old) table key e)

  pub old_newest :
      (old : Document)
      → f (table_of (document_of item)) (key_of (document_of item)) ≡ some old
      → num_of item ≤ document_num old
      → SameRows f (with_newest item f)
  old_newest old e later table key =
      ground (arith, own_row (document_of item) f (some old) table key e)

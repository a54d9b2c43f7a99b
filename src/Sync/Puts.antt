-- ===== src/Sync/Puts.antt =====
-- One call of `DBUpdateOrInsert`, on every branch.
use ons_sawtooth.Base.Logic.{ℕ, ◌<◌, ◌≤◌, ◌≡◌, refl, ◌∙◌, ◌⊎◌, inl, inr, true, arith}
use native.Mathlib.Decide.{dec_lt}
use ons_sawtooth.Base.Dict.{Dict}
use ons_sawtooth.Base.Outcome.{Error, Reply, success, failure, Outcome, ok, err}
use ons_sawtooth.Sync.Table.{gs1_code_table, service_type_table}
use ons_sawtooth.Sync.Database.{
  Document, gs1_code_document, service_type_document, block_info_document, table_of, key_of,
  Database, Rows, inserted, updated, SameRows, IsLawfulDatabase,
}
use ons_sawtooth.Sync.Mirror.{Mirror, Job, db_update_or_insert}
use ons_sawtooth.Sync.Newest.{
  Item, gs1_code_item, service_type_item, document_of, num_of, document_num, with_newest, IsTidy,
  inserted-newest, updated-newest, old_newest,
}

module _ (base : Database) where
  -- The call that `UpdateOnsEvent` makes for an item.
  abbrev pub put_item : Item → Job base (Unit {0})
  put_item (gs1_code_item e) =
      db_update_or_insert base gs1_code_table e.gs1_code_data.gs1_code e.block_num
        (gs1_code_document e)
  put_item (service_type_item e) =
      db_update_or_insert base service_type_table e.service_type.address e.block_num
        (service_type_document e)

  abbrev pub rows_of : Mirror base.Db → Rows
  rows_of m = base.rows m.db_name m.db

  -- The variables that `DBConnect` sets.
  pub record IsConnected (m : Mirror base.Db) : Type 0 where
    pub session : m.has_session ≡ true
    pub mutex : m.has_mutex ≡ true

  -- What a write answers, and the database after it.
  abbrev written : Mirror base.Db → Reply (Dict ℕ) × base.Db → Outcome (Unit {0}) × Mirror base.Db
  written m r = (elim r.0 [ success counts ↦ ok tt | failure e ↦ err e ], record m { db = r.1 })

  abbrev own_get : Item → Mirror base.Db → Reply (Reply Document)
  own_get item m = base.get m.db_name (table_of (document_of item)) (key_of (document_of item)) m.db

  put_unread :
      (item : Item) (m : Mirror base.Db) (e : Error)
      → IsConnected m
      → own_get item m ≡ failure e
      → put_item item m ≡ (err e, m)
  unfolding db_update_or_insert
  put_unread (gs1_code_item x) m e c g = ground arith
  put_unread (service_type_item x) m e c g = ground arith

  put_inserts :
      (item : Item) (m : Mirror base.Db) (e : Error)
      → IsConnected m
      → own_get item m ≡ success (failure e)
      → put_item item m
        ≡ written m (base.insert m.db_name (table_of (document_of item)) (document_of item) m.db)
  unfolding db_update_or_insert
  put_inserts (gs1_code_item x) m e c g = ground arith
  put_inserts (service_type_item x) m e c g = ground arith

  put_skips :
      (item : Item) (m : Mirror base.Db) (old : Document)
      → IsConnected m
      → own_get item m ≡ success (success old)
      → table_of old ≡ table_of (document_of item)
      → num_of item ≤ document_num old
      → put_item item m ≡ (ok tt, m)
  unfolding db_update_or_insert
  put_skips (gs1_code_item x) m (gs1_code_document o) c g t late = ground arith
  put_skips (gs1_code_item x) m (service_type_document o) c g t late = ground arith
  put_skips (gs1_code_item x) m (block_info_document o) c g t late = ground arith
  put_skips (service_type_item x) m (gs1_code_document o) c g t late = ground arith
  put_skips (service_type_item x) m (service_type_document o) c g t late = ground arith
  put_skips (service_type_item x) m (block_info_document o) c g t late = ground arith

  put_updates :
      (item : Item) (m : Mirror base.Db) (old : Document)
      → IsConnected m
      → own_get item m ≡ success (success old)
      → table_of old ≡ table_of (document_of item)
      → document_num old < num_of item
      → put_item item m
        ≡ written m (base.update m.db_name (table_of (document_of item)) (document_of item) m.db)
  unfolding db_update_or_insert
  put_updates (gs1_code_item x) m (gs1_code_document o) c g t late = ground arith
  put_updates (gs1_code_item x) m (service_type_document o) c g t late = ground arith
  put_updates (gs1_code_item x) m (block_info_document o) c g t late = ground arith
  put_updates (service_type_item x) m (gs1_code_document o) c g t late = ground arith
  put_updates (service_type_item x) m (service_type_document o) c g t late = ground arith
  put_updates (service_type_item x) m (block_info_document o) c g t late = ground arith

  -- What a call comes to: it changes the database alone; it succeeds, and the rows are those of the
  -- reference, or it fails, and they are that or as before.
  pub record Put (item : Item) (m : Mirror base.Db) (r : Outcome (Unit {0}) × Mirror base.Db)
      : Type 0 where
    pub variables : r.1 ≡ record m { db = r.1.db }
    pub rows_after :
        ((r.0 ≡ ok tt) × SameRows (rows_of r.1) (with_newest item (rows_of m)))
        ⊎ ((e : Error) × (r.0 ≡ err e)
            × (SameRows (rows_of r.1) (rows_of m)
                ⊎ SameRows (rows_of r.1) (with_newest item (rows_of m))))

SameRows-trans : (f g h : Rows) → SameRows f g → SameRows g h → SameRows f h
SameRows-trans f g h p q table key = p table key ∙ q table key

module _ (base : Database) (law : IsLawfulDatabase base) where
  insert_Put :
      (item : Item) (m : Mirror base.Db) (r : Reply (Dict ℕ))
      → (base.insert m.db_name (table_of (document_of item)) (document_of item) m.db).0 ≡ r
      → SameRows (inserted (document_of item) (rows_of base m)) (with_newest item (rows_of base m))
      → Put base item m (
          written base m
            (base.insert m.db_name (table_of (document_of item)) (document_of item) m.db))
  insert_Put item m (success c) e same = record {
    variables = refl;
    rows_after = inl (
      ground arith,
      SameRows-trans _ _ _ (law.insert_done m.db_name (document_of item) m.db c e) same,
    );
  }
  insert_Put item m (failure x) e same = record {
    variables = refl;
    rows_after = inr (
      x,
      ground arith,
      elim (law.insert_failed m.db_name (document_of item) m.db x e) [
        | inl before ↦ inl before
        | inr done ↦ inr (SameRows-trans _ _ _ done same)
      ],
    );
  }

  update_Put :
      (item : Item) (m : Mirror base.Db) (r : Reply (Dict ℕ))
      → (base.update m.db_name (table_of (document_of item)) (document_of item) m.db).0 ≡ r
      → SameRows (updated (document_of item) (rows_of base m)) (with_newest item (rows_of base m))
      → Put base item m (
          written base m
            (base.update m.db_name (table_of (document_of item)) (document_of item) m.db))
  update_Put item m (success c) e same = record {
    variables = refl;
    rows_after = inl (
      ground arith,
      SameRows-trans _ _ _ (law.update_done m.db_name (document_of item) m.db c e) same,
    );
  }
  update_Put item m (failure x) e same = record {
    variables = refl;
    rows_after = inr (
      x,
      ground arith,
      elim (law.update_failed m.db_name (document_of item) m.db x e) [
        | inl before ↦ inl before
        | inr done ↦ inr (SameRows-trans _ _ _ done same)
      ],
    );
  }

  found_Put :
      (item : Item) (m : Mirror base.Db) (old : Document)
      → IsConnected base m
      → IsTidy (rows_of base m)
      → own_get base item m ≡ success (success old)
      → Put base item m (put_item base item m)
  found_Put item m old c tidy g =
      let table = table_of (document_of item) in
      let key = key_of (document_of item) in
      let there = law.get_found m.db_name table key m.db old g in
      let own = tidy table key old there in
      elim (dec_lt (document_num old) (num_of item)) [
        | yes later ↦ rw (put_updates base item m old c g own later) (
            update_Put item m (base.update m.db_name table (document_of item) m.db).0 refl
              (updated-newest item (rows_of base m) old there later))
        | no early ↦
            let le : num_of item ≤ document_num old = omega arith in
            rw (put_skips base item m old c g own le) (record {
              variables = refl;
              rows_after = inl (refl, old_newest item (rows_of base m) old there le);
            })
      ]

  own_get-Put :
      (item : Item) (m : Mirror base.Db) (g : Reply (Reply Document))
      → IsConnected base m
      → IsTidy (rows_of base m)
      → own_get base item m ≡ g
      → Put base item m (put_item base item m)
  own_get-Put item m (success (success old)) c tidy g = found_Put item m old c tidy g
  own_get-Put item m (success (failure e)) c tidy g =
      let table = table_of (document_of item) in
      let key = key_of (document_of item) in
      rw (put_inserts base item m e c g) (
        insert_Put item m (base.insert m.db_name table (document_of item) m.db).0 refl
          (inserted-newest item (rows_of base m) (law.get_missing m.db_name table key m.db e g)))
  own_get-Put item m (failure e) c tidy g =
      rw (put_unread base item m e c g)
        (record { variables = refl; rows_after = inr (e, refl, inl (λ table key. refl)) })

  -- On a connected mirror whose rows stand in the tables of their kinds, with a lawful database, an
  -- update with an item of an event does not panic and changes no variable. If it succeeds, the row
  -- with the item's key is the newer of the old one and the item, and every other is as it was; if it
  -- fails, this is so or no row has changed.
  pub put_item-Put :
      (item : Item) (m : Mirror base.Db)
      → IsConnected base m
      → IsTidy (rows_of base m)
      → Put base item m (put_item base item m)
  put_item-Put item m c tidy = own_get-Put item m (own_get base item m) c tidy refl

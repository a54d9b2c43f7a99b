-- ===== src/Sync/BlockInfos.antt =====
-- What the writes of block information leave of the mirror: the rows of the other tables.
use ons_sawtooth.Base.Logic.{ℕ, ◌≡◌, ◌≢◌, refl, sym, subst, ◌∙◌, inl, inr, arith}
use ons_sawtooth.Base.Text.{GoString}
use ons_sawtooth.Base.Outcome.{Reply, success, failure, Outcome, ok, err, ComesBack, Reply-cases}
use ons_sawtooth.Base.Dict.{Dict}
use ons_sawtooth.Sync.Database.{
  Document, gs1_code_document, service_type_document, block_info_document, table_of, Key, index,
  BlockInfo, latest_updated_block_info, Database, Rows, inserted, updated, SameRows,
  IsLawfulDatabase,
}
use ons_sawtooth.Sync.Mirror.{
  Mirror, zero_block_info, take_block_info, db_init_latest_updated_block_info,
  db_update_latest_updated_block_info, db_get_latest_updated_block_info,
}
use ons_sawtooth.Sync.Newest.{IsTidy, is_at-eq}
use ons_sawtooth.Sync.Puts.{rows_of}
use ons_sawtooth.Sync.Runs.{IsReady}

-- Rows of block information have changed at most.
pub record OnlyBlockInfo (f g : Rows) : Type 0 where
  pub tidy : IsTidy f → IsTidy g
  pub others :
      (table : GoString) (key : Key) → table ≢ latest_updated_block_info → g table key ≡ f table key

same-OnlyBlockInfo : (f g : Rows) → SameRows g f → OnlyBlockInfo f g
same-OnlyBlockInfo f g same = record {
  tidy = λ t table key d e. t table key d (sym (same table key) ∙ e);
  others = λ table key apart. same table key;
}

inserted-OnlyBlockInfo :
    (b : BlockInfo) (f g : Rows)
    → SameRows g (inserted (block_info_document b) f)
    → OnlyBlockInfo f g
inserted-OnlyBlockInfo b f g same = record {
  tidy = λ t table key d e.
      ground (arith, same table key, t table key d, is_at-eq (block_info_document b) table key);
  others =
      λ table key apart. ground (arith, same table key, is_at-eq (block_info_document b) table key);
}

updated-OnlyBlockInfo :
    (b : BlockInfo) (f g : Rows)
    → SameRows g (updated (block_info_document b) f)
    → OnlyBlockInfo f g
updated-OnlyBlockInfo b f g same = record {
  tidy = λ t table key d e.
      ground (arith, same table key, t table key d, is_at-eq (block_info_document b) table key);
  others =
      λ table key apart. ground (arith, same table key, is_at-eq (block_info_document b) table key);
}

module _ (base : Database) (law : IsLawfulDatabase base) where
  abbrev insert_info : Mirror base.Db → BlockInfo → Reply (Dict ℕ) × base.Db
  insert_info m b = base.insert m.db_name latest_updated_block_info (block_info_document b) m.db

  abbrev update_info : Mirror base.Db → BlockInfo → Reply (Dict ℕ) × base.Db
  update_info m b = base.update m.db_name latest_updated_block_info (block_info_document b) m.db

  insert_info-OnlyBlockInfo :
      (m : Mirror base.Db) (b : BlockInfo)
      → OnlyBlockInfo (rows_of base m) (base.rows m.db_name (insert_info m b).1)
  insert_info-OnlyBlockInfo m b = elim (Reply-cases (insert_info m b).0) [
    | inl (c, e) ↦
        inserted-OnlyBlockInfo b _ _ (law.insert_done m.db_name (block_info_document b) m.db c e)
    | inr (x, e) ↦ elim (law.insert_failed m.db_name (block_info_document b) m.db x e) [
      | inl same ↦ same-OnlyBlockInfo _ _ same
      | inr same ↦ inserted-OnlyBlockInfo b _ _ same
    ]
  ]

  update_info-OnlyBlockInfo :
      (m : Mirror base.Db) (b : BlockInfo)
      → OnlyBlockInfo (rows_of base m) (base.rows m.db_name (update_info m b).1)
  update_info-OnlyBlockInfo m b = elim (Reply-cases (update_info m b).0) [
    | inl (c, e) ↦
        updated-OnlyBlockInfo b _ _ (law.update_done m.db_name (block_info_document b) m.db c e)
    | inr (x, e) ↦ elim (law.update_failed m.db_name (block_info_document b) m.db x e) [
      | inl same ↦ same-OnlyBlockInfo _ _ same
      | inr same ↦ updated-OnlyBlockInfo b _ _ same
    ]
  ]

  -- A step that has come back, and kept the session, the mutex and the rows of the other tables.
  pub record Keeps (A : Type 0) (m : Mirror base.Db) (r : Outcome A × Mirror base.Db) : Type 0 where
    pub returns : ComesBack r.0
    pub session : r.1.has_session ≡ m.has_session
    pub mutex : r.1.has_mutex ≡ m.has_mutex
    pub current : r.1.current_latest_ons_event ≡ m.current_latest_ons_event
    pub rows_kept : OnlyBlockInfo (rows_of base m) (rows_of base r.1)

  Keeps-refl : {A : Type 0} (m : Mirror base.Db) (r : Outcome A) → ComesBack r → Keeps A m (r, m)
  Keeps-refl m r back = record {
    returns = back;
    session = refl;
    mutex = refl;
    current = refl;
    rows_kept = same-OnlyBlockInfo _ _ (λ table key. refl);
  }

  pub Keeps-IsReady :
      {A : Type 0} (m : Mirror base.Db) (r : Outcome A × Mirror base.Db)
      → Keeps A m r
      → IsReady base m
      → IsReady base r.1
  Keeps-IsReady m r k ready = record {
    connected = record {
      session = k.session ∙ ready.connected.session;
      mutex = k.mutex ∙ ready.connected.mutex;
    };
    tidy = k.rows_kept.tidy ready.tidy;
  }

  -- A write of block information, and what it answers.
  wrote-Keeps :
      {A : Type 0} (m : Mirror base.Db) (r : Outcome A) (s : base.Db)
      → ComesBack r
      → OnlyBlockInfo (rows_of base m) (base.rows m.db_name s)
      → Keeps A m (r, record m { db = s })
  wrote-Keeps m r s back only = record {
    returns = back;
    session = refl;
    mutex = refl;
    current = refl;
    rows_kept = only;
  }

  pub db_update_latest-Keeps :
      (n : ℕ) (id prev : GoString) (m : Mirror base.Db)
      → IsReady base m
      → Keeps (Unit {0}) m (db_update_latest_updated_block_info base n id prev m)
  unfolding db_update_latest_updated_block_info
  db_update_latest-Keeps n id prev m ready =
      let b : BlockInfo = record { block_num = n; block_id = id; previous_block_id = prev } in
      let only = update_info-OnlyBlockInfo m b in
      let after : Mirror base.Db = record m { db = (update_info m b).1 } in
      let session = ready.connected.session in
      elim (Reply-cases (update_info m b).0) [
        | inl (c, e) ↦
            let came : db_update_latest_updated_block_info base n id prev m ≡ (ok tt, after) =
              ground arith in
            subst (Keeps (Unit {0}) m) (sym came)
              (wrote-Keeps m (ok tt) (update_info m b).1 tt only)
        | inr (x, e) ↦
            let came : db_update_latest_updated_block_info base n id prev m ≡ (err x, after) =
              ground arith in
            subst (Keeps (Unit {0}) m) (sym came)
              (wrote-Keeps m (err x) (update_info m b).1 tt only)
      ]

  db_init_latest-Keeps :
      (m : Mirror base.Db) → IsReady base m → Keeps ℕ m (db_init_latest_updated_block_info base m)
  unfolding db_init_latest_updated_block_info
  db_init_latest-Keeps m ready =
      let only = insert_info-OnlyBlockInfo m zero_block_info in
      let after : Mirror base.Db = record m { db = (insert_info m zero_block_info).1 } in
      let session = ready.connected.session in
      elim (Reply-cases (insert_info m zero_block_info).0) [
        | inl (c, e) ↦
            let came : db_init_latest_updated_block_info base m
                ≡ (ok 0, record after { latest_block_num = 0 }) =
              ground arith in
            subst (Keeps ℕ m) (sym came) (record {
              returns = tt;
              session = refl;
              mutex = refl;
              current = refl;
              rows_kept = only;
            })
        | inr (x, e) ↦
            let came : db_init_latest_updated_block_info base m ≡ (err x, after) = ground arith in
            subst (Keeps ℕ m) (sym came)
              (wrote-Keeps m (err x) (insert_info m zero_block_info).1 tt only)
      ]

  -- The row of block information is one.
  take_block_info-Keeps :
      (d : Document) (m : Mirror base.Db)
      → table_of d ≡ latest_updated_block_info
      → Keeps ℕ m (take_block_info base d m)
  take_block_info-Keeps (block_info_document b) m t = record {
    returns = tt;
    session = refl;
    mutex = refl;
    current = refl;
    rows_kept = same-OnlyBlockInfo _ _ (λ table key. refl);
  }
  take_block_info-Keeps (gs1_code_document x) m t = absurd (ground arith)
  take_block_info-Keeps (service_type_document x) m t = absurd (ground arith)

  pub db_get_latest-Keeps :
      (m : Mirror base.Db) → IsReady base m → Keeps ℕ m (db_get_latest_updated_block_info base m)
  unfolding db_get_latest_updated_block_info
  db_get_latest-Keeps m ready =
      let session = ready.connected.session in
      let key = index 0 in
      elim (Reply-cases (base.get m.db_name latest_updated_block_info key m.db)) [
        | inr (x, e) ↦
            let came : db_get_latest_updated_block_info base m ≡ (err x, m) = ground arith in
            subst (Keeps ℕ m) (sym came) (Keeps-refl m (err x) tt)
        | inl (failure x, e) ↦
            let came : db_get_latest_updated_block_info base m
                ≡ db_init_latest_updated_block_info base m =
              ground arith in
            subst (Keeps ℕ m) (sym came) (db_init_latest-Keeps m ready)
        | inl (success d, e) ↦
            let at = law.get_found m.db_name latest_updated_block_info key m.db d e in
            let came : db_get_latest_updated_block_info base m ≡ take_block_info base d m =
              ground arith in
            subst (Keeps ℕ m) (sym came)
              (take_block_info-Keeps d m (ready.tidy latest_updated_block_info key d at))
      ]

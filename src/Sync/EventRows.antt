-- ===== src/Sync/EventRows.antt =====
-- `UpdateOnsEvent` as a whole, over the event, the block information and the rows.
use ons_sawtooth.Base.Logic.{
  ◌≤◌, ◌≡◌, ◌≢◌, refl, sym, ap, subst, ◌∙◌, Bool-cases, inl, inr, Option, none, some, Option-cases,
  if◌then◌else◌, true, ◌⊎◌, arith, ltb, [], ◌∷◌, ◌++◌,
}
use ons_sawtooth.Base.Text.{GoString, ◌==◌}
use ons_sawtooth.Base.Outcome.{Outcome, ok, err, panic, hang, ComesBack, resume, caught, pure}
use ons_sawtooth.Sdk.{Sdk}
use ons_sawtooth.Sync.Database.{
  Document, Key, latest_updated_block_info, Database, IsLawfulDatabase, Rows,
}
use ons_sawtooth.Sync.Mirror.{OnsEvent, Mirror, db_get_latest_updated_block_info}
use ons_sawtooth.Sync.Newest.{document_num}
use ons_sawtooth.Sync.Puts.{rows_of}
use ons_sawtooth.Sync.Runs.{
  IsReady, put_items, put_items-Advances, put_items-IsReady, put_items-current,
}
use ons_sawtooth.Sync.BlockInfos.{
  OnlyBlockInfo, Keeps, Keeps-IsReady, db_update_latest-Keeps, db_get_latest-Keeps,
}
use ons_sawtooth.Sync.Events.{
  Feed, AlwaysTakes, keep_event, get_current_latest_ons_event, ask_for_previous, update_ons_event,
}
use ons_sawtooth.Sync.EventItems.{items_of, AllAddressed, update_state_changes-items}

-- An error that is dropped.
dropped :
    {S A : Type 0} (r : Outcome A × S)
    → ComesBack r.0
    → resume (λ x. pure tt) (caught r) ≡ (ok (tt {0}), r.1)
dropped (ok a, s) back = refl
dropped (err e, s) back = refl
dropped (panic, s) back = elim back [ ]
dropped (hang, s) back = elim back [ ]

OnlyBlockInfo-refl : (f : Rows) → OnlyBlockInfo f f
OnlyBlockInfo-refl f = record { tidy = λ t. t; others = λ table key apart. refl }

-- The later of the event known and another, which is the known one if they are of one block.
abbrev pub newer : Option OnsEvent → OnsEvent → OnsEvent
newer none event = event
newer (some latest) event = if ltb latest.block_num event.block_num then event else latest

module _ (sdk : Sdk) (base : Database) (law : IsLawfulDatabase base) (feed : Feed) where
  -- The step came back with a value, and rows of block information have changed at most.
  pub record Returns (A : Type 0) (m : Mirror base.Db) (latest : Option OnsEvent)
      (r : Outcome A × Mirror base.Db) : Type 0 where
    pub value : A
    pub after : Mirror base.Db
    pub came : r ≡ (ok value, after)
    pub ready : IsReady base after
    pub current : after.current_latest_ons_event ≡ latest
    pub rows_kept : OnlyBlockInfo (rows_of base m) (rows_of base after)

  dropped-Returns :
      {A : Type 0} (m : Mirror base.Db) (r : Outcome A × Mirror base.Db)
      → IsReady base m
      → Keeps base law A m r
      → Returns (Unit {0}) m m.current_latest_ons_event (resume (λ x. pure tt) (caught r))
  dropped-Returns m r ready k = record {
    value = tt;
    after = r.1;
    came = dropped r k.returns;
    ready = Keeps-IsReady base law m r k ready;
    current = k.current;
    rows_kept = k.rows_kept;
  }

  latest_known-Returns :
      (event : OnsEvent) (m : Mirror base.Db)
      → IsReady base m
      → event.previous_block_id == m.latest_block_id ≡ true
      → Returns (Unit {0}) m m.current_latest_ons_event (ask_for_previous sdk base feed event m)
  latest_known-Returns event m ready known =
      let came : ask_for_previous sdk base feed event m
          ≡ resume (λ x. pure tt) (caught (db_get_latest_updated_block_info base m)) =
        ground arith in
      subst (Returns (Unit {0}) m m.current_latest_ons_event) (sym came) (
        dropped-Returns m (db_get_latest_updated_block_info base m) ready
          (db_get_latest-Keeps base law m ready))

  -- The previous block is the latest known one, or the subscriber takes its id.
  pub ask_for_previous-Returns :
      (event : OnsEvent) (m : Mirror base.Db)
      → IsReady base m
      → (event.previous_block_id == m.latest_block_id ≡ true)
        ⊎ (feed.takes m.asked event.previous_block_id ≡ true)
      → Returns (Unit {0}) m m.current_latest_ons_event (ask_for_previous sdk base feed event m)
  ask_for_previous-Returns event m ready (inl known) = latest_known-Returns event m ready known
  ask_for_previous-Returns event m ready (inr taken) =
      elim (Bool-cases (event.previous_block_id == m.latest_block_id)) [
        | inl known ↦ latest_known-Returns event m ready known
        | inr unknown ↦ record {
          value = tt;
          after = record m { asked = m.asked ++ (event.previous_block_id ∷ []) };
          came = ground arith;
          ready = record {
            connected = record { session = ready.connected.session; mutex = ready.connected.mutex };
            tidy = ready.tidy;
          };
          current = refl;
          rows_kept = OnlyBlockInfo-refl (rows_of base m);
        }
      ]

  -- The variable of the latest event is set before the block information is written.
  keep_event-Returns :
      (event : OnsEvent) (m : Mirror base.Db)
      → IsReady base m
      → Returns (Unit {0}) m (some event) (keep_event sdk base feed event m)
  keep_event-Returns event m ready =
      let m' : Mirror base.Db = record m { current_latest_ons_event = some event } in
      let ready' : IsReady base m' = record {
        connected = record { session = ready.connected.session; mutex = ready.connected.mutex };
        tidy = ready.tidy;
      } in
      let k =
        db_update_latest-Keeps base law event.block_num event.block_id event.previous_block_id m'
          ready' in
      let r = dropped-Returns m' _ ready' k in
      record {
        value = r.value;
        after = r.after;
        came = r.came;
        ready = r.ready;
        current = r.current;
        rows_kept = r.rows_kept;
      }

  -- The event that is kept is the later one.
  kept-Returns :
      (event : OnsEvent) (m : Mirror base.Db)
      (r : Returns (Unit {0}) m (some event) (keep_event sdk base feed event m))
      → get_current_latest_ons_event sdk base feed event m
        ≡ (ok r.after.current_latest_ons_event, r.after)
      → newer m.current_latest_ons_event event ≡ event
      → Returns
          (Option OnsEvent)
          m
          (some (newer m.current_latest_ons_event event))
          (get_current_latest_ons_event sdk base feed event m)
  kept-Returns event m r came n = record {
    value = r.after.current_latest_ons_event;
    after = r.after;
    came = came;
    ready = r.ready;
    current = r.current ∙ ap some (sym n);
    rows_kept = r.rows_kept;
  }

  pub get_current_latest-Returns :
      (event : OnsEvent) (m : Mirror base.Db)
      → IsReady base m
      → Returns
          (Option OnsEvent)
          m
          (some (newer m.current_latest_ons_event event))
          (get_current_latest_ons_event sdk base feed event m)
  unfolding get_current_latest_ons_event
  get_current_latest-Returns event m ready =
      let r = keep_event-Returns event m ready in
      elim (Option-cases m.current_latest_ons_event) [
        | inl unknown ↦ kept-Returns event m r (ground (arith, r.came)) (ground arith)
        | inr (latest, known) ↦ elim (Bool-cases (ltb latest.block_num event.block_num)) [
          | inl later ↦ kept-Returns event m r (ground (arith, r.came)) (ground arith)
          | inr early ↦ record {
            value = some latest;
            after = m;
            came = ground arith;
            ready = ready;
            current = ground arith;
            rows_kept = OnlyBlockInfo-refl (rows_of base m);
          }
        ]
      ]

  -- What an event leaves: the later event is the latest, and no row of data is lost or of an older
  -- block.
  pub record Handled (event : OnsEvent) (m : Mirror base.Db)
      (r : Outcome (Unit {0}) × Mirror base.Db) : Type 0 where
    pub returned : r.0 ≡ ok tt
    pub ready : IsReady base r.1
    pub current : r.1.current_latest_ons_event ≡ some (newer m.current_latest_ons_event event)
    pub advances :
        (table : GoString) (key : Key) (d : Document)
        → table ≢ latest_updated_block_info
        → rows_of base m table key ≡ some d
        → (d' : Document) × (rows_of base r.1 table key ≡ some d')
          × (document_num d ≤ document_num d')

  -- With a lawful database, a subscriber that takes the block ids sent to it, a connected mirror
  -- whose rows stand in the tables of their kinds, and state changes whose addresses have 14
  -- characters, the handling of an event returns, whichever calls of the database fail; the mirror
  -- is again such a one, the latest event is the later of the one known and this, and in the tables
  -- of codes and service types no row is lost or replaced by one of an older block.
  pub update_ons_event-Handled :
      (event : OnsEvent) (m : Mirror base.Db)
      → AlwaysTakes feed
      → IsReady base m
      → AllAddressed event.state_changes
      → Handled event m (update_ons_event sdk base feed event m)
  unfolding update_ons_event
  update_ons_event-Handled event m takes ready long =
      let g = get_current_latest-Returns event m ready in
      let a = ask_for_previous-Returns event g.after g.ready (inr (takes _ _)) in
      let items = items_of sdk feed event event.state_changes in
      let u =
        update_state_changes-items sdk base law feed event event.state_changes a.after a.ready
          long in
      let came : update_ons_event sdk base feed event m ≡ (ok tt, put_items base items a.after) =
        rw (g.came, a.came) u in
      subst (Handled event m) (sym came) (record {
        returned = refl;
        ready = put_items-IsReady base law items a.after a.ready;
        current = put_items-current base law items a.after a.ready ∙ a.current ∙ g.current;
        advances = λ table key d apart there.
            put_items-Advances base law items a.after a.ready table key d
              (a.rows_kept.others table key apart ∙ g.rows_kept.others table key apart ∙ there);
      })

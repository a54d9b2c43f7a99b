-- ===== src/Sync/Stalls.antt =====
-- The walk of the block ids in `UpdateOnsEvent` when nothing takes an id from the channel, as after
-- the end of `runSubscriber` in src/ons_sync/handler.go.
use ons_sawtooth.Base.Logic.{◌≡◌, ◌≢◌, refl, ap, sym, ◌∙◌, List, false, arith}
use ons_sawtooth.Base.Text.{GoString}
use ons_sawtooth.Base.Outcome.{hang}
use ons_sawtooth.Sdk.{Sdk}
use ons_sawtooth.Sync.Database.{Database, IsLawfulDatabase}
use ons_sawtooth.Sync.Mirror.{OnsEvent, Mirror, db_update_latest_updated_block_info}
use ons_sawtooth.Sync.Puts.{rows_of}
use ons_sawtooth.Sync.Runs.{IsReady}
use ons_sawtooth.Sync.Events.{
  Feed, get_current_latest_ons_event, ask_for_previous, update_ons_event,
}
use ons_sawtooth.Sync.EventRows.{get_current_latest-Returns}
use ons_sawtooth.Sync.Turns.{DataSame}

module _ (sdk : Sdk) (base : Database) (law : IsLawfulDatabase base) (feed : Feed) where
  -- The block information is written, and not read.
  latest_block_id-kept :
      (event : OnsEvent) (m : Mirror base.Db)
      → (get_current_latest_ons_event sdk base feed event m).1.latest_block_id ≡ m.latest_block_id
  unfolding get_current_latest_ons_event db_update_latest_updated_block_info
  latest_block_id-kept event m = ground arith

  asking-hang :
      (event : OnsEvent) (m : Mirror base.Db)
      → event.previous_block_id ≢ m.latest_block_id
      → feed.takes m.asked event.previous_block_id ≡ false
      → ask_for_previous sdk base feed event m ≡ (hang, m)
  asking-hang event m unknown untaken = ground arith

  -- With a lawful database and a connected mirror whose rows stand in the tables of their kinds: if
  -- the block before the event's is not the latest that the mirror knows, and nothing ever takes its
  -- id from the channel, then the handling of the event never returns, and writes no row of codes and
  -- service types, whatever the event changes.
  pub update_ons_event-hang :
      (event : OnsEvent) (m : Mirror base.Db)
      → IsReady base m
      → event.previous_block_id ≢ m.latest_block_id
      → ((asked : List GoString) → feed.takes asked event.previous_block_id ≡ false)
      → ((update_ons_event sdk base feed event m).0 ≡ hang)
        × DataSame (rows_of base (update_ons_event sdk base feed event m).1) (rows_of base m)
  unfolding update_ons_event
  update_ons_event-hang event m ready unknown untaken =
      let g = get_current_latest-Returns sdk base law feed event m ready in
      let same : g.after.latest_block_id ≡ m.latest_block_id =
        ap (λ r. r.1.latest_block_id) (sym g.came) ∙ latest_block_id-kept event m in
      let waits = asking-hang event g.after (λ e. unknown (e ∙ same)) (untaken g.after.asked) in
      let came : update_ons_event sdk base feed event m ≡ (hang, g.after) =
        rw (g.came, waits) refl in
      (
        ap (λ r. r.0) came,
        λ table key data_table.
            ap (λ r. rows_of base r.1 table key) came ∙ g.rows_kept.others table key data_table,
      )

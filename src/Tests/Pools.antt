-- ===== src/Tests/Pools.antt =====
-- The goroutines of two events at the mirror of Tests/Mirrors.antt, and a code on its way to the
-- table.
use ons_sawtooth.Base.Logic.{
  false, sym, subst, ◌≡◌, refl, [], ◌∷◌, Option, none, some, arith, ℕ_discrete,
}
use ons_sawtooth.Base.Text.{text, GoString-discrete}
use ons_sawtooth.Base.Dict.{lookup}
use ons_sawtooth.Base.Outcome.{ok, hang}
use ons_sawtooth.Sync.Stalls.{update_ons_event-hang}
use ons_sawtooth.Sync.Table.{get_table_idx_by_address, sync_hexdigest}
use ons_sawtooth.Address.{hexdigest, hex_encode, hex_digit, lower, namespace}
use ons_sawtooth.Tests.Pack.{put_all, get_all, count}
use ons_sawtooth.Sync.Database.{
  name, block_info_document, service_type_document, table_of, key_of, gs1_codes, service_types,
  Document, gs1_code_document, Rows,
}
use ons_sawtooth.Sync.Mirror.{
  OnsEvent, Mirror, initial_mirror, db_connected, db_update_or_insert,
  db_update_latest_updated_block_info,
}
use ons_sawtooth.Sync.Newest.{document_of, Item, gs1_code_item, service_type_item}
use ons_sawtooth.Sync.Puts.{put_item, rows_of}
use ons_sawtooth.Sync.Order.{AllApart, all_newest}
use ons_sawtooth.Sync.Runs.{IsReady}
use ons_sawtooth.Sync.Events.{
  gs1_code_event, update_ons_event, get_current_latest_ons_event, update_state_change,
  set_state_change, Feed,
}
use ons_sawtooth.Sync.EventItems.{change_of, items_of}
use ons_sawtooth.Sync.Goroutines.{starts, asks, writes, turn, Pool, taken, Schedule, here, next}
use ons_sawtooth.Sync.Turns.{DataSame, AlwaysAnswers}
use ons_sawtooth.Sync.Schedules.{pending, AllGoroutines, Schedule-rows}
use ons_sawtooth.Sync.Mirrored.{IsWriting, mirrored_code}
use ons_sawtooth.Base.Logic.{inl}
use ons_sawtooth.Sdk.Laws.{wire_gs1_code}
use ons_sawtooth.Tests.Ledger.{ledger-IsLawful}
use ons_sawtooth.Address.{make_address}
use ons_sawtooth.Tests.Ledger.{padded, ledger, digest}
use ons_sawtooth.Tests.Town.{code, milk}
use ons_sawtooth.Tests.Mirrors.{
  rethink, rethink-IsLawfulDatabase, mirror, mirror-IsReady, feed, change, event, milk_bytes,
  long_address,
}

abbrev later_event : OnsEvent
later_event = record event { block_num = 10; block_id = text "b10"; previous_block_id = text "b9" }

abbrev two_events : Pool ledger rethink feed
two_events = record { goroutines = starts event ∷ starts later_event ∷ []; mirror = mirror }

answers_with :
    (item : Item) (m : Mirror Rows) (o : Option Document)
    → IsReady rethink m
    → m.db (table_of (document_of item)) (key_of (document_of item)) ≡ o
    → (put_item rethink item m).0 ≡ ok tt
unfolding db_update_or_insert
answers_with (gs1_code_item x) m none ready e =
    ground (arith, ready.connected.session, ready.connected.mutex)
answers_with (service_type_item x) m none ready e =
    ground (arith, ready.connected.session, ready.connected.mutex)
answers_with (gs1_code_item x) m (some (gs1_code_document d)) ready e =
    ground (arith, ready.connected.session, ready.connected.mutex)
answers_with (service_type_item x) m (some (service_type_document d)) ready e =
    ground (arith, ready.connected.session, ready.connected.mutex)
answers_with (gs1_code_item x) m (some (service_type_document d)) ready e =
    ground (arith, ready.connected.session, ready.connected.mutex)
answers_with (service_type_item x) m (some (gs1_code_document d)) ready e =
    ground (arith, ready.connected.session, ready.connected.mutex)
answers_with (gs1_code_item x) m (some (block_info_document d)) ready e =
    let t = ready.tidy gs1_codes (name x.gs1_code_data.gs1_code) (block_info_document d) e in
    absurd (ground arith)
answers_with (service_type_item x) m (some (block_info_document d)) ready e =
    let t = ready.tidy service_types (name x.service_type.address) (block_info_document d) e in
    absurd (ground arith)

rethink-answers : AlwaysAnswers ledger rethink rethink-IsLawfulDatabase feed
rethink-answers item m ready =
    answers_with item m (m.db (table_of (document_of item)) (key_of (document_of item))) ready refl

abbrev milk_set : OnsEvent → Item
milk_set e = gs1_code_item (gs1_code_event e change milk)

two_pending :
    pending ledger rethink rethink-IsLawfulDatabase feed two_events
    ≡ milk_set event ∷ milk_set later_event ∷ []
unfolding items_of change_of lookup get_table_idx_by_address GoString-discrete ℕ_discrete
    make_address hexdigest hex_encode hex_digit lower namespace sync_hexdigest padded put_all
    get_all count
two_pending = refl

two_apart : AllApart (milk_set event ∷ milk_set later_event ∷ [])
two_apart = ((λ t k e. absurd (omega arith), tt), (tt, tt))

two_addressed : AllGoroutines ledger rethink rethink-IsLawfulDatabase feed two_events.goroutines
two_addressed = ((long_address, tt), ((long_address, tt), tt))

pending_apart : AllApart (pending ledger rethink rethink-IsLawfulDatabase feed two_events)
pending_apart = subst AllApart (sym two_pending) two_apart

-- The goroutines in turn, until both are done.
two_ended :
    (q : Pool ledger rethink feed) × Schedule ledger rethink feed two_events q
    × (pending ledger rethink rethink-IsLawfulDatabase feed q ≡ [])
unfolding turn get_current_latest_ons_event db_update_latest_updated_block_info update_state_change
    set_state_change db_update_or_insert db_connected initial_mirror items_of lookup
    get_table_idx_by_address GoString-discrete ℕ_discrete make_address hexdigest hex_encode
    hex_digit lower namespace sync_hexdigest padded put_all get_all count
two_ended = (
  _,
  next
      (next
        (next
          (next
            (next (next here (taken [] (starts later_event ∷ []) (starts event) _ _ refl refl refl))
              (taken (asks event ∷ []) [] (starts later_event) _ _ refl refl refl))
            (taken (asks event ∷ []) [] (asks later_event) _ _ refl refl refl))
          (taken [] _ (asks event) _ _ refl refl refl))
        (taken [] _ (writes event (change ∷ [])) _ _ refl refl refl))
      (taken (writes event [] ∷ []) [] (writes later_event (change ∷ [])) _ _ refl refl refl),
  refl,
)

Schedule-rows_example : DataSame (rows_of rethink two_ended.0.mirror) (
    all_newest
      (pending ledger rethink rethink-IsLawfulDatabase feed two_events)
      (rows_of rethink mirror))
Schedule-rows_example =
    Schedule-rows ledger rethink rethink-IsLawfulDatabase feed two_events two_ended.0
      rethink-answers mirror-IsReady two_addressed pending_apart two_ended.1 two_ended.2

change_sets_milk : IsWriting change (make_address digest code) milk_bytes
unfolding lookup GoString-discrete ℕ_discrete
change_sets_milk = record { kind = (text "SET", refl, refl); addressed = refl; valued = refl }

mirrored_code_example :
    rows_of rethink (update_ons_event ledger rethink feed event mirror).1 gs1_codes (name code)
    ≡ some (
        gs1_code_document (record {
          gs1_code_data = wire_gs1_code milk;
          address = make_address digest code;
          block_num = 9;
        }))
unfolding db_connected initial_mirror
mirrored_code_example =
    mirrored_code ledger rethink rethink-IsLawfulDatabase feed milk milk_bytes event change
      milk_bytes mirror ledger-IsLawful (λ asked id. refl) rethink-answers mirror-IsReady refl refl
      change_sets_milk refl (inl refl)

-- Nothing reads the channel any more.
abbrev deaf_feed : Feed
deaf_feed = record feed { takes = λ asked id. false }

update_ons_event-hang_example :
    ((update_ons_event ledger rethink deaf_feed event mirror).0 ≡ hang)
    × DataSame
        (rows_of rethink (update_ons_event ledger rethink deaf_feed event mirror).1)
        (rows_of rethink mirror)
unfolding db_connected initial_mirror
update_ons_event-hang_example =
    update_ons_event-hang ledger rethink rethink-IsLawfulDatabase deaf_feed event mirror
      mirror-IsReady (λ e. ground arith) (λ asked. refl)

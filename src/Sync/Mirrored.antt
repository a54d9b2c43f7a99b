-- ===== src/Sync/Mirrored.antt =====
-- A code of the ledger and its row in the mirror: from the bytes that `SaveGS1Code` writes, through
-- the event of the validator, to the table.
use ons_sawtooth.Base.Logic.{
  ◌≤◌, ◌<◌, ◌≡◌, ◌⊎◌, inl, inr, refl, sym, ap, subst, ◌∙◌, List, [], ◌∷◌, true, false, none, some,
  arith,
}
use ons_sawtooth.Base.Text.{GoString, Bytes, text, ◌==◌}
use ons_sawtooth.Base.Dict.{Dict, lookup}
use ons_sawtooth.Base.Outcome.{success, ok}
use ons_sawtooth.Proto.State.{Gs1CodeData}
use ons_sawtooth.Sdk.{Sdk}
use ons_sawtooth.Sdk.Laws.{IsLawful, wire_gs1_code}
use ons_sawtooth.Address.{make_address}
use ons_sawtooth.Address.Laws.{length-make_address}
use ons_sawtooth.Base.Slice.{length}
use ons_sawtooth.Sync.Routing.{gs1_code_routed}
use ons_sawtooth.Sync.Database.{
  Rows, Document, gs1_code_document, Database, IsLawfulDatabase, name, gs1_codes,
}
use ons_sawtooth.Sync.Mirror.{OnsEvent, Mirror}
use ons_sawtooth.Sync.Newest.{document_of, with_newest, Item, gs1_code_item, document_num}
use ons_sawtooth.Sync.Puts.{put_item, rows_of}
use ons_sawtooth.Sync.Order.{all_newest}
use ons_sawtooth.Sync.Runs.{put_item-IsReady, IsReady, AllAnswered, put_items, put_items-newest}
use ons_sawtooth.Sync.Events.{unmarshalled_gs1_code, Feed, AlwaysTakes, string_at, update_ons_event}
use ons_sawtooth.Sync.EventItems.{
  sets, change_of, items_of, AllAddressed, update_state_changes-items,
}
use ons_sawtooth.Sync.EventRows.{ask_for_previous-Returns, get_current_latest-Returns}
use ons_sawtooth.Sync.Turns.{DataSame, all_newest-DataSame, AlwaysAnswers}

-- A change that sets the value at an address.
pub record IsWriting (change : Dict GoString) (address value : GoString) : Type 0 where
  pub kind :
      (event_type : GoString) × (lookup (text "type") change ≡ some event_type)
      × ((event_type == text "DELETE") ≡ false)
  pub addressed : lookup (text "address") change ≡ some address
  pub valued : lookup (text "value") change ≡ some value

module _ (sdk : Sdk) (base : Database) (law : IsLawfulDatabase base) (feed : Feed) where
  all_answered :
      (items : List Item) (m : Mirror base.Db)
      → AlwaysAnswers sdk base law feed
      → IsReady base m
      → AllAnswered base items m
  unfolding AllAnswered
  all_answered [] m answers ready = tt
  all_answered (item ∷ items) m answers ready = (
    answers item m ready,
    all_answered items (put_item base item m).1 answers (put_item-IsReady base law item m ready),
  )

  -- The data rows after an event are those of the reference.
  update_ons_event-rows :
      (event : OnsEvent) (m : Mirror base.Db)
      → AlwaysTakes feed
      → AlwaysAnswers sdk base law feed
      → IsReady base m
      → AllAddressed event.state_changes
      → DataSame
          (rows_of base (update_ons_event sdk base feed event m).1)
          (all_newest (items_of sdk feed event event.state_changes) (rows_of base m))
  unfolding update_ons_event
  update_ons_event-rows event m takes answers ready long =
      let g = get_current_latest-Returns sdk base law feed event m ready in
      let a = ask_for_previous-Returns sdk base law feed event g.after g.ready (inr (takes _ _)) in
      let items = items_of sdk feed event event.state_changes in
      let u =
        update_state_changes-items sdk base law feed event event.state_changes a.after a.ready
          long in
      let came : update_ons_event sdk base feed event m ≡ (ok tt, put_items base items a.after) =
        rw (g.came, a.came) u in
      subst (λ r. DataSame (rows_of base r.1) (all_newest items (rows_of base m))) (sym came)
        (λ table key data_table.
          put_items-newest base law items a.after a.ready
            (all_answered items a.after answers a.ready) table key
          ∙ all_newest-DataSame items (rows_of base a.after) (rows_of base m)
              (λ t k d. a.rows_kept.others t k d ∙ g.rows_kept.others t k d) table key data_table)

  set_address :
      (change : Dict GoString) (address value : GoString)
      → IsWriting change address value
      → string_at (text "address") change ≡ address
  set_address change address value set = rw (set.addressed, string_at) refl

  set_value :
      (change : Dict GoString) (address value : GoString)
      → IsWriting change address value
      → string_at (text "value") change ≡ value
  set_value change address value set = rw (set.valued, string_at) refl

  abbrev mirrored : OnsEvent → Gs1CodeData → Item
  mirrored event m = gs1_code_item (record {
    gs1_code_data = wire_gs1_code m;
    address = make_address sdk.sha512 m.gs1_code;
    block_num = event.block_num;
  })

  change_of-set :
      (m : Gs1CodeData) (bytes : Bytes) (event : OnsEvent) (change : Dict GoString)
      (value : GoString)
      → IsLawful sdk
      → sdk.gs1_code_codec.marshal (some m) ≡ success bytes
      → feed.decode_base64 value ≡ success bytes
      → IsWriting change (make_address sdk.sha512 m.gs1_code) value
      → change_of sdk feed event change ≡ sets (mirrored event m)
  unfolding change_of
  change_of-set m bytes event change value law_of_sdk marshalled decoded set =
      let (event_type, typed, kept) = set.kind in
      let read = law_of_sdk.gs1_code_round_trips m bytes marshalled in
      let routed = gs1_code_routed sdk.sha512 law_of_sdk.digest m.gs1_code in
      let valued = set_value change (make_address sdk.sha512 m.gs1_code) value set in
      let addressed = set_address change (make_address sdk.sha512 m.gs1_code) value set in
      let unmarshalled : unmarshalled_gs1_code sdk feed bytes ≡ wire_gs1_code m =
        rw (read, unmarshalled_gs1_code) refl in
      rw (typed, change_of, kept, valued, decoded, addressed, routed, unmarshalled)
        (rw addressed refl)

  same_name : (a : GoString) → (a == a) ≡ true
  same_name a = ground arith

  newest_row :
      (event : OnsEvent) (m : Gs1CodeData) (f : Rows)
      → (f gs1_codes (name m.gs1_code) ≡ none)
        ⊎ ((d : Document) × (f gs1_codes (name m.gs1_code) ≡ some d)
            × (document_num d < event.block_num))
      → with_newest (mirrored event m) f gs1_codes (name m.gs1_code)
        ≡ some (document_of (mirrored event m))
  newest_row event m f (inl free) = ground (arith, same_name m.gs1_code)
  newest_row event m f (inr (d, there, early)) = ground (arith, same_name m.gs1_code)

  -- With a lawful validator, a lawful database that answers every update, and a subscriber that takes
  -- the block ids sent to it: when an event of one
  -- change carries, in base64, the bytes of a code at the address where the processor saves it, a
  -- connected mirror whose rows stand in the tables of their kinds, and that has no row of the code
  -- or an earlier block's, has then the row of the code as it stood on the wire, with that address
  -- and the block of the event.
  pub mirrored_code :
      (m : Gs1CodeData) (bytes : Bytes) (event : OnsEvent) (change : Dict GoString)
      (value : GoString) (mirror : Mirror base.Db)
      → IsLawful sdk
      → AlwaysTakes feed
      → AlwaysAnswers sdk base law feed
      → IsReady base mirror
      → sdk.gs1_code_codec.marshal (some m) ≡ success bytes
      → feed.decode_base64 value ≡ success bytes
      → IsWriting change (make_address sdk.sha512 m.gs1_code) value
      → event.state_changes ≡ change ∷ []
      → (rows_of base mirror gs1_codes (name m.gs1_code) ≡ none)
        ⊎ ((d : Document) × (rows_of base mirror gs1_codes (name m.gs1_code) ≡ some d)
            × (document_num d < event.block_num))
      → rows_of base (update_ons_event sdk base feed event mirror).1 gs1_codes (name m.gs1_code)
        ≡ some (
            gs1_code_document (record {
              gs1_code_data = wire_gs1_code m;
              address = make_address sdk.sha512 m.gs1_code;
              block_num = event.block_num;
            }))
  unfolding all_newest items_of
  mirrored_code m bytes event change value mirror law_of_sdk takes answers ready marshalled decoded
        set one old =
      let change_sets =
        change_of-set m bytes event change value law_of_sdk marshalled decoded set in
      let items : items_of sdk feed event event.state_changes ≡ mirrored event m ∷ [] =
        rw (one, change_sets, items_of) refl in
      let long : AllAddressed event.state_changes =
        subst AllAddressed (sym one) (long_enough, tt) in
      update_ons_event-rows event mirror takes answers ready long gs1_codes (name m.gs1_code)
        (λ e. ground arith)
      ∙ ap (λ l. all_newest l (rows_of base mirror) gs1_codes (name m.gs1_code)) items
      ∙ newest_row event m (rows_of base mirror) old
    where
      long_enough : 14 ≤ length (string_at (text "address") change)
      long_enough =
          rw (set_address change (make_address sdk.sha512 m.gs1_code) value set)
            (omega (arith, length-make_address sdk.sha512 law_of_sdk.digest m.gs1_code))

-- ===== src/Tests/Mirrors.antt =====
-- A database that keeps its rows in a function and answers every call, a connected mirror, and the
-- theorems on the mirror at them.
use ons_sawtooth.Base.Logic.{
  ℕ, ◌≤◌, ◌<◌, ◌≡◌, refl, [], ◌∷◌, Option, none, some, true, arith, ℕ_discrete,
}
use ons_sawtooth.Base.Text.{GoString, text, GoString-discrete}
use ons_sawtooth.Base.Slice.{length}
use ons_sawtooth.Base.Dict.{Dict, lookup}
use ons_sawtooth.Base.Outcome.{Error, other_error, Reply, success, failure, ok, err, panic}
use ons_sawtooth.Proto.State.{ServiceType}
use ons_sawtooth.Sync.Database.{
  Document, gs1_code_document, Database, Rows, inserted, updated, IsLawfulDatabase,
}
use ons_sawtooth.Sync.Mirror.{OnsEvent, Mirror, initial_mirror, db_connected, db_update_or_insert}
use ons_sawtooth.Sync.Newest.{Item, gs1_code_item, service_type_item}
use ons_sawtooth.Sync.Puts.{put_item, Put, put_item-Put}
use ons_sawtooth.Sync.Runs.{put_items, IsReady}
use ons_sawtooth.Sync.Events.{Feed, string_at, update_state_changes, update_ons_event}
use ons_sawtooth.Sync.EventItems.{items_of, update_state_changes-items}
use ons_sawtooth.Sync.EventRows.{Handled, update_ons_event-Handled}
use ons_sawtooth.Base.Text.{Bytes}
use ons_sawtooth.Sync.Faults.{table_index_guard}
use ons_sawtooth.Address.{make_address}
use ons_sawtooth.Address.Laws.{length-make_address}
use ons_sawtooth.Tests.Wire.{gs1_code_pack, gs1_code_parts}
use ons_sawtooth.Tests.Ledger.{ledger, digest, digest-IsDigest}
use ons_sawtooth.Tests.Town.{code, milk}

abbrev answered_get : Option Document → Reply Document
answered_get none = failure (other_error (text "empty"))
answered_get (some d) = success d

abbrev pub rethink : Database
rethink = record {
  Db = Rows;
  get = λ n table key s. success (answered_get (s table key));
  insert = λ n table d s. (success ((text "inserted", 1) ∷ []), inserted d s);
  update = λ n table d s. (success ((text "replaced", 1) ∷ []), updated d s);
  filter = λ n table address s. success [];
  rows = λ n s. s;
}

answered_found : (o : Option Document) (d : Document) → answered_get o ≡ success d → o ≡ some d
answered_found none d e = absurd (ground arith)
answered_found (some x) d e = ground arith

answered_missing : (o : Option Document) (x : Error) → answered_get o ≡ failure x → o ≡ none
answered_missing none x e = refl
answered_missing (some d) x e = absurd (ground arith)

pub rethink-IsLawfulDatabase : IsLawfulDatabase rethink
rethink-IsLawfulDatabase = record {
  get_found = λ n table key s d e. answered_found (s table key) d (ground arith);
  get_missing = λ n table key s x e. answered_missing (s table key) x (ground arith);
  insert_done = λ n d s c e table key. refl;
  insert_failed = λ n d s x e. absurd (ground arith);
  update_done = λ n d s c e table key. refl;
  update_failed = λ n d s x e. absurd (ground arith);
}

abbrev no_rows : Rows
no_rows table key = none

abbrev pub mirror : Mirror Rows
mirror = (db_connected rethink (text "ons_ledger") (initial_mirror no_rows)).1

pub mirror-IsReady : IsReady rethink mirror
unfolding db_connected initial_mirror
mirror-IsReady = record {
  connected = record { session = refl; mutex = refl };
  tidy = λ table key d e. absurd (ground arith);
}

abbrev milk_at : ℕ → Item
milk_at n = gs1_code_item (record { gs1_code_data = milk; address = text "5b7349"; block_num = n })

abbrev delivery : ServiceType
delivery = record { address = text "svc"; fields = none; types = none; provider = text "ann" }

abbrev delivery_at : ℕ → Item
delivery_at n = service_type_item (record { service_type = delivery; block_num = n })

put_item-Put_example : Put rethink (milk_at 5) mirror (put_item rethink (milk_at 5) mirror)
put_item-Put_example =
    put_item-Put rethink rethink-IsLawfulDatabase (milk_at 5) mirror mirror-IsReady.connected
      mirror-IsReady.tidy

-- Base64 is left out, and a broken message reads as a code without a name.
abbrev pub feed : Feed
feed = record {
  decode_base64 = λ s. success s;
  partial_gs1_code = λ bytes. record milk { gs1_code = [] };
  events_of_message = λ bytes. [];
  takes = λ asked id. true;
}

abbrev pub milk_bytes : Bytes
milk_bytes = gs1_code_pack.put (gs1_code_parts milk) []

abbrev pub change : Dict GoString
change =
    (text "type", text "SET")
    ∷ (text "address", make_address digest code)
    ∷ (text "value", gs1_code_pack.put (gs1_code_parts milk) [])
    ∷ []

abbrev pub event : OnsEvent
event = record {
  block_num = 9;
  block_id = text "b9";
  previous_block_id = text "b8";
  state_changes = change ∷ [];
}

pub long_address : 14 ≤ length (string_at (text "address") change)
unfolding lookup GoString-discrete ℕ_discrete
long_address = omega (arith, length-make_address digest digest-IsDigest code)

update_state_changes-items_example :
    update_state_changes ledger rethink feed event (change ∷ []) mirror
    ≡ (ok tt, put_items rethink (items_of ledger feed event (change ∷ [])) mirror)
update_state_changes-items_example =
    update_state_changes-items ledger rethink rethink-IsLawfulDatabase feed event (change ∷ [])
      mirror mirror-IsReady (long_address, tt)

update_ons_event-Handled_example :
    Handled ledger rethink rethink-IsLawfulDatabase feed event mirror
      (update_ons_event ledger rethink feed event mirror)
update_ons_event-Handled_example =
    update_ons_event-Handled ledger rethink rethink-IsLawfulDatabase feed event mirror
      (λ asked id. refl) mirror-IsReady (long_address, tt)

abbrev milk_document : Document
milk_document =
    gs1_code_document (record { gs1_code_data = milk; address = text "5b7349"; block_num = 9 })

table_index_guard_example :
    (3 < 4
      → db_update_or_insert rethink 4 (text "880") 9 milk_document mirror
        ≡ (err (other_error (text "Invalid table index")), mirror))
    × (db_update_or_insert rethink 3 (text "880") 9 milk_document mirror ≡ (panic, mirror))
table_index_guard_example =
    table_index_guard rethink 4 9 (text "880") milk_document mirror mirror-IsReady.connected.session
      mirror-IsReady.connected.mutex

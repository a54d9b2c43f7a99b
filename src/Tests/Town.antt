-- ===== src/Tests/Town.antt =====
-- A ledger with one code of two records and one manager message, and processors that serve it.
use ons_sawtooth.Base.Logic.{ℕ_discrete, ◌≡◌, refl, [], ◌∷◌, none, some, true, false}
use ons_sawtooth.Base.Text.{GoString, Bytes, text, GoString-discrete}
use ons_sawtooth.Base.Dict.{Dict, lookup}
use ons_sawtooth.Base.Outcome.{ok}
use ons_sawtooth.Proto.State.{
  Gs1CodeData, gs1code_active, Record, record_active, OnsManager, OnsGs1CodeManager,
}
use ons_sawtooth.Sdk.{fetch}
use ons_sawtooth.World.{World, empty_ons_manager}
use ons_sawtooth.Address.{make_address, hexdigest, hex_encode, hex_digit, lower, namespace}
use ons_sawtooth.Manager.Storage.{ons_manager_address}
use ons_sawtooth.Manager.Stored.{stored_manager}
use ons_sawtooth.Registry.Laws.{registry}
use ons_sawtooth.Tests.Wire.{gs1_code_pack, gs1_code_parts, ons_manager_pack, ons_manager_parts}
use ons_sawtooth.Tests.Ledger.{ledger, digest, padded, entries_at}
use ons_sawtooth.Tests.Pack.{put_all, get_all, count}

abbrev pub code : GoString
code = text "880"

abbrev pub record_of : GoString → Record
record_of provider = record {
  flags = 7;
  service = text "svc";
  regexp = text "!^.*$!";
  state = record_active;
  provider = provider;
}

abbrev pub milk : Gs1CodeData
milk = record {
  gs1_code = code;
  owner_id = text "root";
  records = some (record_of (text "ann") ∷ record_of (text "bob") ∷ []);
  state = gs1code_active;
}

abbrev pub entry : GoString → GoString → OnsGs1CodeManager
entry gs1_code address = record { gs1_code = gs1_code; address = address }

-- Ann is a super manager, and Bob manages the code.
abbrev pub managers : OnsManager
managers = record {
  su_addresses = some (entry [] (text "ann") ∷ []);
  manager_addresses = some (entry code (text "bob") ∷ []);
}

abbrev pub town_store : Dict Bytes
town_store =
    (make_address digest code, gs1_code_pack.put (gs1_code_parts milk) [])
    ∷ (ons_manager_address ledger, ons_manager_pack.put (ons_manager_parts managers) [])
    ∷ []

-- A processor with its cache loaded.
abbrev pub town : World (Dict Bytes)
town = record {
  sudo_address = text "root";
  ons_manager_address = ons_manager_address ledger;
  ons_manager = managers;
  state_cached = true;
  cached_ons_managers = some ((code, text "bob") ∷ []);
  cached_ons_sumanagers = some ((text "ann", true) ∷ []);
  store = town_store;
}

-- A processor that has just started.
abbrev pub started : World (Dict Bytes)
started = record {
  sudo_address = text "root";
  ons_manager_address = text "empty";
  ons_manager = empty_ons_manager;
  state_cached = false;
  cached_ons_managers = some [];
  cached_ons_sumanagers = some [];
  store = town_store;
}

pub code_registered : registry ledger town_store code ≡ ok (some milk)
unfolding fetch lookup entries_at GoString-discrete ℕ_discrete make_address hexdigest hex_encode
    hex_digit lower namespace ons_manager_address padded put_all get_all count
code_registered = refl

pub managers_stored : stored_manager ledger town_store ≡ ok (some managers)
unfolding fetch lookup entries_at GoString-discrete ℕ_discrete make_address hexdigest hex_encode
    hex_digit lower namespace ons_manager_address padded put_all get_all count
managers_stored = refl

pub other_unregistered : registry ledger town_store (text "999") ≡ ok none
unfolding fetch lookup entries_at GoString-discrete ℕ_discrete make_address hexdigest hex_encode
    hex_digit lower namespace ons_manager_address padded put_all get_all count
other_unregistered = refl

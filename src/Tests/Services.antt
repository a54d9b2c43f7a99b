-- ===== src/Tests/Services.antt =====
-- The theorems on service types, at a ledger that holds one of them, and on a fresh processor.
use ons_sawtooth.Base.Logic.{ℕ_discrete, ◌≡◌, refl, inl, [], ◌∷◌, none, some, arith}
use ons_sawtooth.Base.Text.{GoString, Bytes, text, GoString-discrete}
use ons_sawtooth.Base.Dict.{Dict, lookup}
use ons_sawtooth.Base.Outcome.{ok, success}
use ons_sawtooth.Proto.State.{ServiceType}
use ons_sawtooth.Proto.Payload.{
  RegisterServiceTypeTransactionData, DeregisterServiceTypeTransactionData,
}
use ons_sawtooth.Sdk.{fetch}
use ons_sawtooth.World.{World}
use ons_sawtooth.Address.{make_address, hexdigest, hex_encode, hex_digit, lower, namespace}
use ons_sawtooth.Manager.Storage.{ons_manager_address, get_ons_manager_address, save_ons_manager}
use ons_sawtooth.Manager.Edit.{add_su_manager}
use ons_sawtooth.Manager.Stored.{stored_manager}
use ons_sawtooth.Manager.Fresh.{only_su, add_su_manager_overwrites}
use ons_sawtooth.Tests.Wire.{
  service_type_pack, service_type_parts, ons_manager_pack, ons_manager_parts,
}
use ons_sawtooth.Tests.Ledger.{ledger, ledger-IsLawful, padded, entries_at, keys}
use ons_sawtooth.Tests.Town.{managers, started, town_store}

abbrev root : GoString
root = text "root"

abbrev web : ServiceType
web = record {
  address = text "a1";
  fields = some (record { key = text "port"; value = text "80" } ∷ []);
  types = none;
  provider = root;
}

abbrev shop : World (Dict Bytes)
shop = record started {
  store = (text "a1", service_type_pack.put (service_type_parts web) []) ∷ [];
}

abbrev mail : ServiceType
mail = record { address = text "a2"; fields = none; types = none; provider = root }

abbrev mail_request : RegisterServiceTypeTransactionData
mail_request = record { address = text "a2"; service_type = some mail }

abbrev end_of_web : DeregisterServiceTypeTransactionData
end_of_web = record { address = text "a1" }

manager_readable :
    fetch ledger (ons_manager_address ledger) town_store
    ≡ success (ons_manager_pack.put (ons_manager_parts managers) [])
unfolding fetch lookup entries_at GoString-discrete ℕ_discrete make_address hexdigest hex_encode
    hex_digit lower namespace ons_manager_address padded
manager_readable = refl

dan_added : (add_su_manager ledger (text "dan") root started).0 ≡ ok tt
unfolding add_su_manager save_ons_manager keys get_ons_manager_address lookup GoString-discrete
    ℕ_discrete ons_manager_address namespace hexdigest padded
dan_added = refl

add_su_manager_overwrites_example :
    stored_manager ledger (add_su_manager ledger (text "dan") root started).1.store
    ≡ ok (some (only_su (text "dan")))
add_su_manager_overwrites_example =
    add_su_manager_overwrites ledger ledger-IsLawful (text "dan") root started
      (ons_manager_pack.put (ons_manager_parts managers) []) refl refl refl (inl refl)
      manager_readable (λ e. ground arith) dan_added

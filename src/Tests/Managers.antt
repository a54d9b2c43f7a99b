-- ===== src/Tests/Managers.antt =====
-- The theorems on the managers and the registry at the ledger of Tests/Town.antt.
use ons_sawtooth.Base.Logic.{ℕ_discrete, ◌≡◌, refl, inl, inr, [], ◌∷◌, none, some, true, arith}
use ons_sawtooth.Base.Text.{text, GoString-discrete}
use ons_sawtooth.Base.Dict.{lookup}
use ons_sawtooth.Base.Outcome.{ok, panic, success}
use ons_sawtooth.Proto.State.{Gs1CodeData}
use ons_sawtooth.Sdk.{fetch}
use ons_sawtooth.Sdk.Laws.{wire_gs1_code}
use ons_sawtooth.Address.{make_address, hexdigest, hex_encode, hex_digit, lower, namespace}
use ons_sawtooth.Manager.Storage.{ons_manager_address}
use ons_sawtooth.Manager.Cache.{load_cached_ons_manager}
use ons_sawtooth.Manager.Edit.{
  add_gs1_code_manager, remove_gs1_code_manager, add_su_manager, remove_su_manager, operate_manager,
}
use ons_sawtooth.Manager.Find.{find}
use ons_sawtooth.Manager.Coherence.{
  IsCoherent, cache_of, KeepsCoherence, add_gs1_code_manager-KeepsCoherence,
}
use ons_sawtooth.Manager.Operations.{
  remove_gs1_code_manager-KeepsCoherence, add_su_manager-KeepsCoherence,
  remove_su_manager-KeepsCoherence,
}
use ons_sawtooth.Manager.Reload.{load_cached_ons_manager-IsCoherent, operate_manager_reload_panics}
use ons_sawtooth.Registry.{load_gs1_code, save_gs1_code}
use ons_sawtooth.Registry.Laws.{address_of, load_gs1_code-save_gs1_code}
use ons_sawtooth.Tests.Wire.{gs1_code_pack, gs1_code_parts}
use ons_sawtooth.Tests.Ledger.{ledger, ledger-IsLawful, padded, entries_at, keys}
use ons_sawtooth.Tests.Town.{
  code, entry, managers, milk, town, town_store, started, managers_stored,
}

town-IsCoherent : IsCoherent (cache_of town)
unfolding lookup find
town-IsCoherent = record {
  is_loaded = refl;
  code_map = (code, text "bob") ∷ [];
  has_code_map = refl;
  su_map = (text "ann", true) ∷ [];
  has_su_map = refl;
  codes = λ c. ground arith;
  sus = λ a. ground arith;
  unique_codes = (refl, tt);
  unique_sus = (refl, tt);
}

add_gs1_code_manager-KeepsCoherence_example :
    KeepsCoherence ledger (add_gs1_code_manager ledger (text "999") (text "dan") (text "root")) town
add_gs1_code_manager-KeepsCoherence_example =
    add_gs1_code_manager-KeepsCoherence ledger (text "999") (text "dan") (text "root") town
      town-IsCoherent

remove_gs1_code_manager-KeepsCoherence_example :
    KeepsCoherence ledger (remove_gs1_code_manager ledger code (text "root")) town
remove_gs1_code_manager-KeepsCoherence_example =
    remove_gs1_code_manager-KeepsCoherence ledger code (text "root") town town-IsCoherent

add_su_manager-KeepsCoherence_example :
    KeepsCoherence ledger (add_su_manager ledger (text "dan") (text "root")) town
add_su_manager-KeepsCoherence_example =
    add_su_manager-KeepsCoherence ledger (text "dan") (text "root") town town-IsCoherent

remove_su_manager-KeepsCoherence_example :
    KeepsCoherence ledger (remove_su_manager ledger (text "ann") (text "root")) town
remove_su_manager-KeepsCoherence_example =
    remove_su_manager-KeepsCoherence ledger (text "ann") (text "root") town town-IsCoherent

load_cached_ons_manager-IsCoherent_example :
    ((load_cached_ons_manager ledger started).0 ≡ ok tt)
    × IsCoherent (cache_of (load_cached_ons_manager ledger started).1)
unfolding find
load_cached_ons_manager-IsCoherent_example =
    load_cached_ons_manager-IsCoherent ledger started managers refl refl refl (inl refl)
      managers_stored (refl, tt) (refl, tt)

operate_manager_reload_panics_example : (operate_manager ledger 1 (text "root") town).0 ≡ panic
operate_manager_reload_panics_example =
    operate_manager_reload_panics ledger (text "root") town managers (entry [] (text "ann")) [] refl
      refl (inr refl) managers_stored refl

abbrev empty_milk : Gs1CodeData
empty_milk = record milk { records = none }

code_saved : (save_gs1_code ledger empty_milk town).0 ≡ ok tt
unfolding save_gs1_code keys
code_saved = refl

code_readable :
    fetch ledger (address_of ledger code) town_store
    ≡ success (gs1_code_pack.put (gs1_code_parts milk) [])
unfolding fetch lookup entries_at GoString-discrete ℕ_discrete make_address hexdigest hex_encode
    hex_digit lower namespace ons_manager_address padded
code_readable = refl

load_gs1_code-save_gs1_code_example :
    (load_gs1_code ledger code (save_gs1_code ledger empty_milk town).1).0
    ≡ ok (some (wire_gs1_code empty_milk))
load_gs1_code-save_gs1_code_example =
    load_gs1_code-save_gs1_code ledger ledger-IsLawful empty_milk town
      (gs1_code_pack.put (gs1_code_parts milk) []) code_saved code_readable (λ e. ground arith)

-- ===== src/Manager/Edit.antt =====
-- The operations that change the manager message.
use ons_sawtooth.Base.Logic.{ℕ, List, [], ◌∷◌, ◌++◌, Bool, true, false, Option, none, some, eqb}
use ons_sawtooth.Base.Text.{GoString, text, ◌==◌}
use ons_sawtooth.Base.Slice.{Slice}
use ons_sawtooth.Base.Dict.{Dict, erase}
use ons_sawtooth.Base.Outcome.{
  invalid_transaction, internal, ok, pure, fail, or_return, gets, modify, attempt, ◌>>=◌, ◌>>◌,
}
use ons_sawtooth.Proto.State.{OnsGs1CodeManager}
use ons_sawtooth.Sdk.{Sdk}
use ons_sawtooth.World.{Call, context_delete}
use ons_sawtooth.Manager.Storage.{get_ons_manager_address, save_ons_manager}
use ons_sawtooth.Manager.Cache.{
  lookup_map, assign, computed, when_uncached, load_cached_ons_manager, clear_cached_ons_manager,
}
use ons_sawtooth.Manager.Loop.{remove_hits}

abbrev pub is_value : GoString → Option GoString → Bool
is_value address none = false
is_value address (some v) = v == address

abbrev pub is_set : Option Bool → Bool
is_set none = false
is_set (some v) = true

-- The loop that looks for the code and sets its address: `none` if the code is not there.
unfoldable pub update_manager :
    GoString → GoString → List OnsGs1CodeManager → Option (List OnsGs1CodeManager)
update_manager gs1_code address [] = none
update_manager gs1_code address (m ∷ ms) = elim (m.gs1_code == gs1_code) [
  | true ↦ some (record m { address = address } ∷ ms)
  | false ↦ elim (update_manager gs1_code address ms) [ none ↦ none | some rest ↦ some (m ∷ rest) ]
]

-- The message after `AddGS1CodeManager`: updated in place, or with a new entry at the end.
unfoldable pub put_manager : GoString → GoString → Slice OnsGs1CodeManager → Slice OnsGs1CodeManager
unfolding update_manager
put_manager gs1_code address none = some (record { gs1_code = gs1_code; address = address } ∷ [])
put_manager gs1_code address (some ms) = elim (update_manager gs1_code address ms) [
  | some updated ↦ some updated
  | none ↦ some (ms ++ (record { gs1_code = gs1_code; address = address } ∷ []))
]

abbrev pub append_slice : {A : Type 0} → Slice A → A → Slice A
append_slice none x = some (x ∷ [])
append_slice (some xs) x = some (xs ++ (x ∷ []))

abbrev pub erase_map : {V : Type 0} → GoString → Option (Dict V) → Option (Dict V)
erase_map k none = none
erase_map k (some m) = some (erase k m)

abbrev pub has_code : GoString → OnsGs1CodeManager → Bool
has_code gs1_code m = m.gs1_code == gs1_code

abbrev pub has_address : GoString → OnsGs1CodeManager → Bool
has_address address m = m.address == address

module _ (sdk : Sdk) where
  -- `SaveONSManager(requestor, g_ons_manager, context)`
  abbrev pub save_current : GoString → Call sdk (Unit {0})
  save_current requestor w = save_ons_manager sdk requestor w.ons_manager w

  abbrev pub add_new_manager : GoString → GoString → GoString → Call sdk (Unit {0})
  add_new_manager gs1_code address requestor = do
    managers ← (← gets (λ w. computed sdk (assign gs1_code address w.cached_ons_managers)))
    modify (λ w. record w { cached_ons_managers = managers })
    modify (λ w. record w {
      ons_manager = record (w.ons_manager) {
        manager_addresses = put_manager gs1_code address w.ons_manager.manager_addresses;
      };
    })
    save_current requestor

  -- A failed load is logged and dropped.
  unfoldable pub add_gs1_code_manager : GoString → GoString → GoString → Call sdk (Unit {0})
  add_gs1_code_manager gs1_code address requestor = do
    _ ← attempt (when_uncached sdk (load_cached_ons_manager sdk))
    known ← gets (λ w. is_value address (lookup_map gs1_code w.cached_ons_managers))
    elim known [
      | true ↦ save_current requestor
      | false ↦ add_new_manager gs1_code address requestor
    ]

  abbrev pub remove_listed_manager :
      GoString → GoString → Slice OnsGs1CodeManager → Call sdk (Unit {0})
  remove_listed_manager gs1_code requestor none =
      fail (internal (text "ONS Managers doesn't exist"))
  remove_listed_manager gs1_code requestor (some ms) = do
    modify (λ w. record w { cached_ons_managers = erase_map gs1_code w.cached_ons_managers })
    rest ← computed sdk (remove_hits (has_code gs1_code) ms)
    modify
        (λ w. record w { ons_manager = record (w.ons_manager) { manager_addresses = some rest } })
    save_current requestor

  unfoldable pub remove_gs1_code_manager : GoString → GoString → Call sdk (Unit {0})
  remove_gs1_code_manager gs1_code requestor = do
    _ ← attempt (when_uncached sdk (load_cached_ons_manager sdk))
    listed ← gets (λ w. w.ons_manager.manager_addresses)
    remove_listed_manager gs1_code requestor listed

  unfoldable pub delete_all_manager : Call sdk (Unit {0})
  delete_all_manager = do
    address ← get_ons_manager_address sdk
    clear_cached_ons_manager sdk
    _ ← or_return (← context_delete sdk (address ∷ []))
    pure tt

  abbrev pub require_sudo : GoString → GoString → Call sdk (Unit {0})
  require_sudo what requestor w = elim (requestor == w.sudo_address) [
    | true ↦ (ok tt, w)
    | false ↦ fail (invalid_transaction (what ++ text " : Authentication failed")) w
  ]

  abbrev pub add_new_su_manager : GoString → GoString → Call sdk (Unit {0})
  add_new_su_manager su_address requestor = do
    sumanagers ← (← gets (λ w. computed sdk (assign su_address true w.cached_ons_sumanagers)))
    modify (λ w. record w { cached_ons_sumanagers = sumanagers })
    modify (λ w. record w {
      ons_manager = record (w.ons_manager) {
        su_addresses =
            append_slice w.ons_manager.su_addresses
              (record { gs1_code = []; address = su_address });
      };
    })
    save_current requestor

  -- The cache is read as it stands: nothing loads it here.
  unfoldable pub add_su_manager : GoString → GoString → Call sdk (Unit {0})
  add_su_manager su_address requestor = do
    require_sudo (text "AddSuManager") requestor
    known ← gets (λ w. is_set (lookup_map su_address w.cached_ons_sumanagers))
    elim known [ true ↦ save_current requestor | false ↦ add_new_su_manager su_address requestor ]

  abbrev pub remove_listed_su_manager :
      GoString → GoString → Slice OnsGs1CodeManager → Call sdk (Unit {0})
  remove_listed_su_manager su_address requestor none =
      fail (internal (text "ONS Managers doesn't exist"))
  remove_listed_su_manager su_address requestor (some ms) = do
    modify (λ w. record w { cached_ons_sumanagers = erase_map su_address w.cached_ons_sumanagers })
    rest ← computed sdk (remove_hits (has_address su_address) ms)
    modify (λ w. record w { ons_manager = record (w.ons_manager) { su_addresses = some rest } })
    save_current requestor

  unfoldable pub remove_su_manager : GoString → GoString → Call sdk (Unit {0})
  remove_su_manager su_address requestor = do
    require_sudo (text "AddSuManager") requestor
    listed ← gets (λ w. w.ons_manager.su_addresses)
    remove_listed_su_manager su_address requestor listed

  unfoldable pub operate_manager : ℕ → GoString → Call sdk (Unit {0})
  operate_manager op requestor = do
    require_sudo (text "LoadManager") requestor
    elim (eqb op 1) [
      | true ↦ (do clear_cached_ons_manager sdk; load_cached_ons_manager sdk)
      | false ↦ pure tt
    ]

-- ===== src/Manager/Fresh.antt =====
-- A processor that has just started, and adds a super manager before its cache is loaded.
use ons_sawtooth.Base.Logic.{◌≡◌, ◌≢◌, [], ◌∷◌, none, some, true, arith}
use ons_sawtooth.Base.Text.{GoString, Bytes}
use ons_sawtooth.Base.Dict.{lookup, insert}
use ons_sawtooth.Base.Outcome.{ok, success}
use ons_sawtooth.Proto.State.{OnsManager}
use ons_sawtooth.Sdk.{Sdk, fetch}
use ons_sawtooth.Sdk.Laws.{IsLawful}
use ons_sawtooth.World.{World, empty_ons_manager}
use ons_sawtooth.Manager.Storage.{ons_manager_address, save_ons_manager}
use ons_sawtooth.Manager.Edit.{add_su_manager}
use ons_sawtooth.Manager.Stored.{HasAddress, stored_manager, stored_manager-save_ons_manager}

-- The message with one super manager and no managers of codes.
abbrev pub only_su : GoString → OnsManager
only_su address = record {
  su_addresses = some (record { gs1_code = []; address = address } ∷ []);
  manager_addresses = none;
}

module _ (sdk : Sdk) (law : IsLawful sdk) where
  abbrev with_only : GoString → World sdk.Store → World sdk.Store
  with_only address w = record w {
    ons_manager = only_su address;
    cached_ons_sumanagers = some (insert address true []);
  }

  add_su_manager-fresh :
      (address requestor : GoString) (w : World sdk.Store)
      → requestor ≡ w.sudo_address
      → w.ons_manager ≡ empty_ons_manager
      → w.cached_ons_sumanagers ≡ some []
      → add_su_manager sdk address requestor w
        ≡ save_ons_manager sdk requestor (only_su address) (with_only address w)
  unfolding add_su_manager lookup
  add_su_manager-fresh address requestor w sudo fresh none_cached = ground arith

  -- With a lawful validator, a super manager that the super user adds to a processor as it started,
  -- its message and its map empty, overwrites the stored message: if the call succeeds, the stored
  -- message names that super manager and nobody else, whatever was stored before. The address could
  -- be read before, the new message does not marshal to no bytes at all, and the address variable
  -- holds "empty" or the address.
  pub add_su_manager_overwrites :
      (address requestor : GoString) (w : World sdk.Store) (v : Bytes)
      → requestor ≡ w.sudo_address
      → w.ons_manager ≡ empty_ons_manager
      → w.cached_ons_sumanagers ≡ some []
      → HasAddress sdk w
      → fetch sdk (ons_manager_address sdk) w.store ≡ success v
      → sdk.ons_manager_codec.marshal (some (only_su address)) ≢ success []
      → (add_su_manager sdk address requestor w).0 ≡ ok tt
      → stored_manager sdk (add_su_manager sdk address requestor w).1.store
        ≡ ok (some (only_su address))
  add_su_manager_overwrites address requestor w v sudo fresh none_cached addressed readable nonempty
        done =
      let e = add_su_manager-fresh address requestor w sudo fresh none_cached in
      rw e (
        stored_manager-save_ons_manager sdk law requestor (only_su address) (with_only address w) v
          addressed (rw e at done) readable nonempty)

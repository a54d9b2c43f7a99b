-- ===== src/Manager/Reload.antt =====
-- Loading the cache, and `clearCachedONSManager` before it.
use ons_sawtooth.Base.Logic.{◌≡◌, refl, List, [], ◌∷◌, Bool, true, false, Option, none, some, arith}
use ons_sawtooth.Base.Text.{GoString}
use ons_sawtooth.Base.Slice.{elements}
use ons_sawtooth.Base.Dict.{Dict, lookup, insert, lookup-insert, lookup-nil}
use ons_sawtooth.Base.Outcome.{ok, panic}
use ons_sawtooth.Proto.State.{OnsManager, OnsGs1CodeManager}
use ons_sawtooth.Sdk.{Sdk}
use ons_sawtooth.World.{World}
use ons_sawtooth.Manager.Storage.{ons_manager_address}
use ons_sawtooth.Manager.Stored.{HasAddress, stored_manager, load_ons_manager-stored}
use ons_sawtooth.Manager.Cache.{clear_cached_ons_manager, load_cached_ons_manager, fill_map}
use ons_sawtooth.Manager.Edit.{add_su_manager, operate_manager}
use ons_sawtooth.Manager.Find.{find, IsUnique}
use ons_sawtooth.Manager.Put.{code_key, address_key}
use ons_sawtooth.Manager.Coherence.{IsCoherent, cache_of}

module _ {V : Type 0} (key : OnsGs1CodeManager → GoString) (value : OnsGs1CodeManager → V) where
  abbrev found_or : Option OnsGs1CodeManager → Option V → Option V
  found_or none old = old
  found_or (some m) old = some (value m)

  -- Filling a map from a list without repetitions: every key of the list gets its value.
  fill_map-lookup :
      (ms : List OnsGs1CodeManager) (d : Dict V)
      → IsUnique key ms
      → (d' : Dict V) × (fill_map key value ms (some d) ≡ ok (some d'))
        × ((j : GoString) → lookup j d' ≡ found_or (find key j ms) (lookup j d))
  unfolding fill_map find
  fill_map-lookup [] d u = (d, refl, λ j. refl)
  fill_map-lookup (m ∷ ms) d u =
      let (d', filled, reads) = fill_map-lookup ms (insert (key m) (value m) d) u.1 in
      (d', filled, λ j. ground (arith, reads j, lookup-insert j (key m) (value m) d))

  -- Filling panics on a nil map, and only there.
  fill_map-some :
      (ms : List OnsGs1CodeManager) (d : Dict V)
      → (d' : Dict V) × (fill_map key value ms (some d) ≡ ok (some d'))
  unfolding fill_map
  fill_map-some [] d = (d, refl)
  fill_map-some (m ∷ ms) d = fill_map-some ms (insert (key m) (value m) d)

  fill_map-none :
      (x : OnsGs1CodeManager) (xs : List OnsGs1CodeManager)
      → fill_map key value (x ∷ xs) none ≡ panic
  unfolding fill_map
  fill_map-none x xs = refl

module _ (sdk : Sdk) where
  cleared_same :
      (w : World sdk.Store)
      → ((clear_cached_ons_manager sdk w).1.ons_manager_address ≡ w.ons_manager_address)
        × ((clear_cached_ons_manager sdk w).1.store ≡ w.store)
  unfolding clear_cached_ons_manager
  cleared_same w = ground arith

  adopted : World sdk.Store → OnsManager → Dict GoString → Dict Bool → World sdk.Store
  adopted w m d d' = record w {
    ons_manager_address = ons_manager_address sdk;
    ons_manager = m;
    cached_ons_managers = some d;
    cached_ons_sumanagers = some d';
    state_cached = true;
  }

  -- The first load, into the empty maps of a start, of a stored message without repetitions
  -- succeeds and gives a coherent cache, if the address variable holds "empty" or the address.
  pub load_cached_ons_manager-IsCoherent :
      (w : World sdk.Store) (m : OnsManager)
      → w.state_cached ≡ false
      → w.cached_ons_managers ≡ some []
      → w.cached_ons_sumanagers ≡ some []
      → HasAddress sdk w
      → stored_manager sdk w.store ≡ ok (some m)
      → IsUnique code_key (elements m.manager_addresses)
      → IsUnique address_key (elements m.su_addresses)
      → ((load_cached_ons_manager sdk w).0 ≡ ok tt)
        × IsCoherent (cache_of (load_cached_ons_manager sdk w).1)
  unfolding load_cached_ons_manager adopted
  load_cached_ons_manager-IsCoherent w m fresh managers sumanagers h stored unique_codes
        unique_sus =
      let (d, filled, codes) =
        fill_map-lookup code_key (λ x. x.address) (elements m.manager_addresses) [] unique_codes in
      let (d', su_filled, sus) =
        fill_map-lookup address_key (λ _. true) (elements m.su_addresses) [] unique_sus in
      let loaded : load_cached_ons_manager sdk w ≡ (ok tt, adopted w m d d') =
        ground (arith, load_ons_manager-stored sdk w h) in
      rw loaded (
        refl,
        record {
          is_loaded = refl;
          code_map = d;
          has_code_map = refl;
          su_map = d';
          has_su_map = refl;
          codes = λ j. ground (arith, codes j, lookup-nil {V = GoString} j);
          sus = λ j. ground (arith, sus j, lookup-nil {V = Bool} j);
          unique_codes = unique_codes;
          unique_sus = unique_sus;
        },
      )

  -- After `clearCachedONSManager` on a loaded cache there is no map of super managers: the next
  -- super manager that the super user adds panics.
  pub add_su_manager-clear_cached :
      (address requestor : GoString) (w : World sdk.Store)
      → w.state_cached ≡ true
      → requestor ≡ w.sudo_address
      → (add_su_manager sdk address requestor (clear_cached_ons_manager sdk w).1).0 ≡ panic
  unfolding add_su_manager clear_cached_ons_manager
  add_su_manager-clear_cached address requestor w cached sudo = ground arith

  -- The reload that the super user asks for with operation 1 panics whenever the cache was loaded
  -- before and the stored message names a super manager, if the address variable holds "empty" or
  -- the address.
  pub operate_manager_reload_panics :
      (requestor : GoString) (w : World sdk.Store) (m : OnsManager) (x : OnsGs1CodeManager)
      (xs : List OnsGs1CodeManager)
      → w.state_cached ≡ true
      → requestor ≡ w.sudo_address
      → HasAddress sdk w
      → stored_manager sdk w.store ≡ ok (some m)
      → elements m.su_addresses ≡ x ∷ xs
      → (operate_manager sdk 1 requestor w).0 ≡ panic
  unfolding operate_manager clear_cached_ons_manager load_cached_ons_manager
  operate_manager_reload_panics requestor w m x xs cached sudo h stored has_su =
      let v = (clear_cached_ons_manager sdk w).1 in
      let (d, filled) = fill_map-some code_key (λ y. y.address) (elements m.manager_addresses) [] in
      let (same_address, same_store) = cleared_same w in
      let loads = load_ons_manager-stored sdk v (rw same_address h) in
      ground (arith, loads, filled, fill_map-none address_key (λ _. true) x xs, same_store)

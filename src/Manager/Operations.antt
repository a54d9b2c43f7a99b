-- ===== src/Manager/Operations.antt =====
-- Removing managers, adding and removing super managers (ons_manager.go), and the cache.
use ons_sawtooth.Base.Logic.{
  ◌⊎◌, ◌≡◌, ◌≢◌, sym, subst, List, Bool, true, none, some, Option-cases, inl, inr, arith,
}
use ons_sawtooth.Base.Text.{GoString, GoString-discrete}
use ons_sawtooth.Base.Dict.{Dict, lookup, insert, erase}
use ons_sawtooth.Base.Outcome.{panic}
use ons_sawtooth.Proto.State.{OnsGs1CodeManager}
use ons_sawtooth.Sdk.{Sdk}
use ons_sawtooth.World.{World}
use ons_sawtooth.Manager.Loop.{without}
use ons_sawtooth.Manager.Removal.{remove_hits-without}
use ons_sawtooth.Manager.Edit.{
  append_slice, has_code, has_address, save_current, remove_gs1_code_manager, add_su_manager,
  remove_su_manager,
}
use ons_sawtooth.Manager.Find.{IsUnique-AtMostOnce}
use ons_sawtooth.Manager.Put.{code_key, address_key}
use ons_sawtooth.Manager.Coherence.{cache_of, IsCoherent, KeepsCoherence, saved-IsCoherent}
use ons_sawtooth.Manager.Upkeep.{
  new_su, drop_code, drop_code-IsCoherent, put_su, put_su-IsCoherent, drop_su, drop_su-IsCoherent,
}

module _ (sdk : Sdk) where
  unfoldable pub without_code :
      GoString → List OnsGs1CodeManager → Dict GoString → World sdk.Store → World sdk.Store
  without_code gs1_code ms m w = record w {
    cached_ons_managers = some (erase gs1_code m);
    ons_manager = record (w.ons_manager) {
      manager_addresses = some (without (has_code gs1_code) ms);
    };
  }

  pub remove_cached :
      (gs1_code requestor : GoString) (ms : List OnsGs1CodeManager) (w : World sdk.Store)
      (h : IsCoherent (cache_of w))
      → w.ons_manager.manager_addresses ≡ some ms
      → remove_gs1_code_manager sdk gs1_code requestor w
        ≡ save_current sdk requestor (without_code gs1_code ms h.code_map w)
  unfolding remove_gs1_code_manager without_code
  remove_cached gs1_code requestor ms w h listed = ground (
    arith,
    h.is_loaded,
    h.has_code_map,
    remove_hits-without (has_code gs1_code) ms
        (IsUnique-AtMostOnce code_key gs1_code ms (rw listed at (h.unique_codes))),
  )

  pub remove_unlisted :
      (gs1_code requestor : GoString) (w : World sdk.Store)
      → IsCoherent (cache_of w)
      → w.ons_manager.manager_addresses ≡ none
      → ((remove_gs1_code_manager sdk gs1_code requestor w).0 ≢ panic)
        × ((remove_gs1_code_manager sdk gs1_code requestor w).1 ≡ w)
  unfolding remove_gs1_code_manager
  remove_unlisted gs1_code requestor w h listed = ground (arith, h.is_loaded)

  -- Removing the manager of a code keeps a coherent cache coherent, whether or not the save succeeds,
  -- and does not panic.
  pub remove_gs1_code_manager-KeepsCoherence :
      (gs1_code requestor : GoString) (w : World sdk.Store)
      → IsCoherent (cache_of w)
      → KeepsCoherence sdk (remove_gs1_code_manager sdk gs1_code requestor) w
  unfolding without_code
  remove_gs1_code_manager-KeepsCoherence gs1_code requestor w h =
      elim (Option-cases (w.ons_manager.manager_addresses)) [
        | inl listed ↦
            let (calm, same) = remove_unlisted gs1_code requestor w h listed in
            (subst (λ v. IsCoherent (cache_of v)) (sym same) h, calm)
        | inr (ms, listed) ↦ rw (remove_cached gs1_code requestor ms w h listed) (
            saved-IsCoherent sdk requestor (without_code gs1_code ms h.code_map w)
              (unfold drop_code in drop_code-IsCoherent gs1_code ms (cache_of w) h listed))
      ]

  with_su : GoString → Dict Bool → World sdk.Store → World sdk.Store
  with_su address m w = record w {
    cached_ons_sumanagers = some (insert address true m);
    ons_manager = record (w.ons_manager) {
      su_addresses = append_slice w.ons_manager.su_addresses (new_su address);
    };
  }

  add_su_cases :
      (address requestor : GoString) (w : World sdk.Store) (h : IsCoherent (cache_of w))
      → ((lookup address h.su_map ≡ none)
          × (add_su_manager sdk address requestor w
              ≡ save_current sdk requestor (with_su address h.su_map w)))
        ⊎ (add_su_manager sdk address requestor w ≡ save_current sdk requestor w)
        ⊎ (((add_su_manager sdk address requestor w).0 ≢ panic)
            × ((add_su_manager sdk address requestor w).1 ≡ w))
  unfolding add_su_manager with_su
  add_su_cases address requestor w h = elim (GoString-discrete requestor w.sudo_address) [
    | no other ↦ inr (inr (ground arith, ground arith))
    | yes sudo ↦ elim (Option-cases (lookup address h.su_map)) [
      | inl fresh ↦ inl (fresh, ground (arith, h.has_su_map))
      | inr (b, known) ↦ inr (inl (ground (arith, h.has_su_map)))
    ]
  ]

  -- Adding a super manager keeps a coherent cache coherent, whether or not the save succeeds, and
  -- does not panic.
  pub add_su_manager-KeepsCoherence :
      (address requestor : GoString) (w : World sdk.Store)
      → IsCoherent (cache_of w)
      → KeepsCoherence sdk (add_su_manager sdk address requestor) w
  unfolding with_su
  add_su_manager-KeepsCoherence address requestor w h = elim (add_su_cases address requestor w h) [
    | inl (fresh, e) ↦ rw e (
        saved-IsCoherent sdk requestor (with_su address h.su_map w)
          (unfold put_su in put_su-IsCoherent address (cache_of w) h fresh))
    | inr (inl e) ↦ rw e (saved-IsCoherent sdk requestor w h)
    | inr (inr (calm, same)) ↦ (subst (λ v. IsCoherent (cache_of v)) (sym same) h, calm)
  ]

  without_su : GoString → List OnsGs1CodeManager → Dict Bool → World sdk.Store → World sdk.Store
  without_su address ms m w = record w {
    cached_ons_sumanagers = some (erase address m);
    ons_manager = record (w.ons_manager) { su_addresses = some (without (has_address address) ms) };
  }

  remove_su_listed :
      (address requestor : GoString) (ms : List OnsGs1CodeManager) (w : World sdk.Store)
      (h : IsCoherent (cache_of w))
      → requestor ≡ w.sudo_address
      → w.ons_manager.su_addresses ≡ some ms
      → remove_su_manager sdk address requestor w
        ≡ save_current sdk requestor (without_su address ms h.su_map w)
  unfolding remove_su_manager without_su
  remove_su_listed address requestor ms w h sudo listed = ground (
    arith,
    h.has_su_map,
    remove_hits-without (has_address address) ms
        (IsUnique-AtMostOnce address_key address ms (rw listed at (h.unique_sus))),
  )

  remove_su_refused :
      (address requestor : GoString) (w : World sdk.Store)
      → (requestor ≢ w.sudo_address) ⊎ (w.ons_manager.su_addresses ≡ none)
      → ((remove_su_manager sdk address requestor w).0 ≢ panic)
        × ((remove_su_manager sdk address requestor w).1 ≡ w)
  unfolding remove_su_manager
  remove_su_refused address requestor w h = ground arith

  -- Removing a super manager keeps a coherent cache coherent, whether or not the save succeeds, and
  -- does not panic.
  pub remove_su_manager-KeepsCoherence :
      (address requestor : GoString) (w : World sdk.Store)
      → IsCoherent (cache_of w)
      → KeepsCoherence sdk (remove_su_manager sdk address requestor) w
  unfolding without_su
  remove_su_manager-KeepsCoherence address requestor w h =
      elim (GoString-discrete requestor w.sudo_address) [
        | no other ↦ refused w (remove_su_refused address requestor w (inl other)) h
        | yes sudo ↦ elim (Option-cases (w.ons_manager.su_addresses)) [
          | inl listed ↦ refused w (remove_su_refused address requestor w (inr listed)) h
          | inr (ms, listed) ↦ rw (remove_su_listed address requestor ms w h sudo listed) (
              saved-IsCoherent sdk requestor (without_su address ms h.su_map w)
                (unfold drop_su in drop_su-IsCoherent address ms (cache_of w) h listed))
        ]
      ]
    where
      refused :
          (v : World sdk.Store)
          → ((remove_su_manager sdk address requestor v).0 ≢ panic)
            × ((remove_su_manager sdk address requestor v).1 ≡ v)
          → IsCoherent (cache_of v)
          → KeepsCoherence sdk (remove_su_manager sdk address requestor) v
      refused v (calm, same) k = (subst (λ u. IsCoherent (cache_of u)) (sym same) k, calm)

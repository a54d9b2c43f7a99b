-- ===== src/Manager/Results.antt =====
-- What the operations on managers do to the map of managers.
use ons_sawtooth.Base.Logic.{
  ◌≡◌, ap, Bool-cases, none, some, Option-cases, inl, inr, if◌then◌else◌, arith,
}
use ons_sawtooth.Base.Text.{GoString, ◌==◌}
use ons_sawtooth.Base.Dict.{lookup-insert, lookup-erase}
use ons_sawtooth.Sdk.{Sdk}
use ons_sawtooth.World.{World}
use ons_sawtooth.Manager.Cache.{lookup_map}
use ons_sawtooth.Manager.Edit.{
  is_value, save_current, add_gs1_code_manager, remove_gs1_code_manager,
}
use ons_sawtooth.Manager.Find.{find}
use ons_sawtooth.Manager.Coherence.{
  IsCoherent, cache_of, with_manager, add_cached, add_known, save_ons_manager-cache,
}
use ons_sawtooth.Manager.Operations.{without_code, remove_cached, remove_unlisted}

module _ (sdk : Sdk) where
  save_current-managers :
      (requestor : GoString) (w : World sdk.Store)
      → (save_current sdk requestor w).1.cached_ons_managers ≡ w.cached_ons_managers
  save_current-managers requestor w =
      ap (λ c. c.managers) (save_ons_manager-cache sdk requestor w.ons_manager w)

  -- On a coherent cache, adding a manager gives the code that manager, and leaves every other code
  -- the manager it had.
  pub lookup-add_gs1_code_manager :
      (other gs1_code address requestor : GoString) (w : World sdk.Store)
      → IsCoherent (cache_of w)
      → lookup_map other
          (add_gs1_code_manager sdk gs1_code address requestor w).1.cached_ons_managers
        ≡ (if gs1_code == other then some address else lookup_map other w.cached_ons_managers)
  unfolding with_manager
  lookup-add_gs1_code_manager other gs1_code address requestor w h =
      elim (Bool-cases (is_value address (lookup_map gs1_code w.cached_ons_managers))) [
        | inl e ↦
            rw (add_known sdk gs1_code address requestor w h e, save_current-managers requestor w)
              (ground arith)
        | inr e ↦
            rw
              (
                add_cached sdk gs1_code address requestor w h e,
                save_current-managers requestor (with_manager sdk gs1_code address h.code_map w),
              )
              (ground (arith, lookup-insert other gs1_code address h.code_map, h.has_code_map))
      ]

  -- On a coherent cache, removing the manager of a code leaves the code without one, and every
  -- other code with the one it had.
  pub lookup-remove_gs1_code_manager :
      (other gs1_code requestor : GoString) (w : World sdk.Store)
      → IsCoherent (cache_of w)
      → lookup_map other (remove_gs1_code_manager sdk gs1_code requestor w).1.cached_ons_managers
        ≡ (if gs1_code == other then none else lookup_map other w.cached_ons_managers)
  unfolding without_code
  lookup-remove_gs1_code_manager other gs1_code requestor w h =
      elim (Option-cases (w.ons_manager.manager_addresses)) [
        | inl listed ↦
            rw (remove_unlisted sdk gs1_code requestor w h listed).1
              (unfold find in ground (arith, h.codes other, h.has_code_map))
        | inr (ms, listed) ↦
            rw
              (
                remove_cached sdk gs1_code requestor ms w h listed,
                save_current-managers requestor (without_code sdk gs1_code ms h.code_map w),
              )
              (ground (arith, lookup-erase other gs1_code h.code_map, h.has_code_map))
      ]

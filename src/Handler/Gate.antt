-- ===== src/Handler/Gate.antt =====
-- The permission gate, and who passes it.
use ons_sawtooth.Base.Logic.{ℕ, ◌≤◌, ◌≡◌, ◌≢◌, ◌⊎◌, ◌↔◌, [], ◌∷◌, true, some, arith}
use ons_sawtooth.Base.Text.{GoString}
use ons_sawtooth.Base.Outcome.{ok}
use ons_sawtooth.Sdk.{Sdk}
use ons_sawtooth.World.{World, Call}
use ons_sawtooth.Manager.Cache.{
  permission_su_address, permission_manager, lookup_map, cached_permission, check_permission,
}
use ons_sawtooth.Manager.Frame.{ReadsOnly, check_permission-ReadsOnly}
use ons_sawtooth.Handler.Permission.{get_permission_level, if_permitted}

module _ (sdk : Sdk) where
  pub get_permission_level-ReadsOnly :
      (gs1_code requestor : GoString) (require_perm : ℕ)
      → ReadsOnly sdk (get_permission_level sdk gs1_code requestor require_perm)
  unfolding get_permission_level
  get_permission_level-ReadsOnly gs1_code requestor require_perm w =
      ground (arith, check_permission-ReadsOnly sdk gs1_code requestor w)

  -- A gate that asks about no code lets only the super user pass, at each of the levels super user,
  -- super manager and manager.
  pub gate_without_code :
      (requestor : GoString) (require_perm : ℕ) (w : World sdk.Store)
      → require_perm ≤ permission_manager
      → (get_permission_level sdk [] requestor require_perm w).0 ≡ ok true
      → requestor ≡ w.sudo_address
  unfolding get_permission_level check_permission cached_permission
  gate_without_code requestor require_perm w l e = ground arith

  -- Who may change the records of a code, by the cache of the world.
  abbrev pub MayEdit : GoString → GoString → World sdk.Store → Type 0
  MayEdit gs1_code requestor w =
      (requestor ≡ w.sudo_address)
      ⊎ ((gs1_code ≢ [])
          × ((lookup_map requestor w.cached_ons_sumanagers ≡ some true)
              ⊎ (lookup_map gs1_code w.cached_ons_managers ≡ some requestor)))

  -- With the cache loaded, the gate for records passes exactly the super user, and for a code that
  -- is not empty the super managers and the manager of that code. It changes nothing.
  pub gate_exact :
      (gs1_code requestor : GoString) (w : World sdk.Store)
      → w.state_cached ≡ true
      → ((get_permission_level sdk gs1_code requestor permission_manager w).0 ≡ ok true
          ↔ MayEdit gs1_code requestor w)
        × ((get_permission_level sdk gs1_code requestor permission_manager w).1 ≡ w)
  unfolding get_permission_level check_permission cached_permission
  gate_exact [] requestor w c = ground arith
  gate_exact (x ∷ xs) requestor w c = ground arith

  -- In any world, who passes the gate for records may edit by the cache as the check left it.
  pub gate_sound :
      (gs1_code requestor : GoString) (w : World sdk.Store)
      → (get_permission_level sdk gs1_code requestor permission_manager w).0 ≡ ok true
      → MayEdit gs1_code requestor
          (get_permission_level sdk gs1_code requestor permission_manager w).1
  unfolding get_permission_level check_permission cached_permission
  gate_sound [] requestor w e = ground arith
  gate_sound (x ∷ xs) requestor w e = ground arith

  -- A transaction that a gate stops: it fails, and the ledger is as it was.
  pub if_permitted_stopped :
      (gs1_code requestor message : GoString) (require_perm : ℕ) (rest : Call sdk (Unit {0}))
      (w : World sdk.Store)
      → (get_permission_level sdk gs1_code requestor require_perm w).0 ≢ ok true
      → ((if_permitted sdk gs1_code requestor require_perm message rest w).0 ≢ ok tt)
        × ((if_permitted sdk gs1_code requestor require_perm message rest w).1.store ≡ w.store)
  if_permitted_stopped gs1_code requestor message require_perm rest w h =
      ground (arith, get_permission_level-ReadsOnly gs1_code requestor require_perm w)

  -- A gate that passes and changes nothing is not noticed.
  pub if_permitted_granted :
      (gs1_code requestor message : GoString) (require_perm : ℕ) (rest : Call sdk (Unit {0}))
      (w : World sdk.Store)
      → (get_permission_level sdk gs1_code requestor require_perm w).0 ≡ ok true
      → (get_permission_level sdk gs1_code requestor require_perm w).1 ≡ w
      → if_permitted sdk gs1_code requestor require_perm message rest w ≡ rest w
  if_permitted_granted gs1_code requestor message require_perm rest w e same = ground arith

  -- The super user passes every gate.
  pub if_permitted_sudo :
      (gs1_code requestor message : GoString) (require_perm : ℕ) (rest : Call sdk (Unit {0}))
      (w : World sdk.Store)
      → permission_su_address ≤ require_perm
      → requestor ≡ w.sudo_address
      → if_permitted sdk gs1_code requestor require_perm message rest w ≡ rest w
  unfolding get_permission_level check_permission
  if_permitted_sudo gs1_code requestor message require_perm rest w l e = ground arith

  pub if_permitted_editor :
      (gs1_code requestor message : GoString) (rest : Call sdk (Unit {0})) (w : World sdk.Store)
      → w.state_cached ≡ true
      → MayEdit gs1_code requestor w
      → if_permitted sdk gs1_code requestor permission_manager message rest w ≡ rest w
  if_permitted_editor gs1_code requestor message rest w cached may =
      let (passes, same) = gate_exact gs1_code requestor w cached in
      if_permitted_granted gs1_code requestor message permission_manager rest w (passes.1 may) same

-- ===== src/Manager/Cache.antt =====
-- The cache of the manager message, and the permission check that reads it.
use ons_sawtooth.Base.Logic.{ℕ, List, [], ◌∷◌, Bool, true, false, Option, none, some, if◌then◌else◌}
use ons_sawtooth.Base.Text.{GoString, ◌==◌}
use ons_sawtooth.Base.Slice.{elements}
use ons_sawtooth.Base.Dict.{Dict, lookup, insert}
use ons_sawtooth.Base.Outcome.{Outcome, ok, panic, pure, gets, modify, attempt, ◌>>=◌, ◌>>◌}
use ons_sawtooth.Proto.State.{OnsManager, OnsGs1CodeManager}
use ons_sawtooth.Sdk.{Sdk}
use ons_sawtooth.World.{Call, empty_ons_manager}
use ons_sawtooth.Manager.Storage.{load_ons_manager}

-- The constants of `Permission`, from 1; less is more.
abbrev pub permission_su_address : ℕ
permission_su_address = 1

abbrev pub permission_su_manager : ℕ
permission_su_manager = 2

abbrev pub permission_manager : ℕ
permission_manager = 3

abbrev pub permission_none : ℕ
permission_none = 4

-- `m[k]` on a map that may be nil.
abbrev pub lookup_map {ℓ} : {V : Type ℓ} → GoString → Option (Dict V) → Option V
lookup_map k none = none
lookup_map k (some m) = lookup k m

-- `m[k] = v` panics on a nil map.
abbrev pub assign : {V : Type 0} → GoString → V → Option (Dict V) → Outcome (Option (Dict V))
assign k v none = panic
assign k v (some m) = ok (some (insert k v m))

-- `for _, x := range xs { m[key(x)] = value(x) }`
unfoldable pub fill_map :
    {V : Type 0}
    → (OnsGs1CodeManager → GoString)
    → (OnsGs1CodeManager → V)
    → List OnsGs1CodeManager
    → Option (Dict V)
    → Outcome (Option (Dict V))
fill_map key value [] m = ok m
fill_map key value (x ∷ xs) none = panic
fill_map key value (x ∷ xs) (some m) = fill_map key value xs (some (insert (key x) (value x) m))

abbrev pub fill_managers :
    List OnsGs1CodeManager → Option (Dict GoString) → Outcome (Option (Dict GoString))
fill_managers = fill_map (λ m. m.gs1_code) (λ m. m.address)

abbrev pub fill_sumanagers :
    List OnsGs1CodeManager → Option (Dict Bool) → Outcome (Option (Dict Bool))
fill_sumanagers = fill_map (λ m. m.address) (λ _. true)

-- The tests at the end of `CheckPermission`, on the two maps.
unfoldable pub cached_permission :
    GoString → GoString → Option (Dict GoString) → Option (Dict Bool) → ℕ
cached_permission [] address managers sumanagers = permission_none
cached_permission (c ∷ cs) address managers sumanagers = elim (lookup_map address sumanagers) [
  | some true ↦ permission_su_manager
  | _ ↦ elim (lookup_map (c ∷ cs) managers) [
    | some v ↦ if v == address then permission_manager else permission_none
    | none ↦ permission_none
  ]
]

module _ (sdk : Sdk) where
  -- A computation that may panic, as a step of a call.
  abbrev pub computed : {A : Type 0} → Outcome A → Call sdk A
  computed r w = (r, w)

  abbrev pub when_uncached : Call sdk (Unit {0}) → Call sdk (Unit {0})
  when_uncached m w = elim w.state_cached [ true ↦ (ok tt, w) | false ↦ m w ]

  -- What `loadCachedONSManager` does with the message it has read.
  abbrev pub adopt : Option OnsManager → Call sdk (Unit {0})
  adopt none = pure tt
  adopt (some m) = do
    modify (λ w. record w { ons_manager = m })
    managers ←
        (← gets
          (λ w. computed (fill_managers (elements m.manager_addresses) w.cached_ons_managers)))
    modify (λ w. record w { cached_ons_managers = managers })
    sumanagers ←
        (← gets (λ w. computed (fill_sumanagers (elements m.su_addresses) w.cached_ons_sumanagers)))
    modify (λ w. record w { cached_ons_sumanagers = sumanagers; state_cached = true })

  unfoldable pub load_cached_ons_manager : Call sdk (Unit {0})
  load_cached_ons_manager = when_uncached (load_ons_manager sdk >>= adopt)

  -- `clearCachedONSManager` makes one of the two maps twice: the other stays nil.
  unfoldable pub clear_cached_ons_manager : Call sdk (Unit {0})
  clear_cached_ons_manager w =
      if w.state_cached
      then (
        ok tt,
        record w {
          ons_manager = empty_ons_manager;
          cached_ons_managers = some [];
          cached_ons_sumanagers = none;
          state_cached = false;
        },
      )
      else (ok tt, w)

  unfoldable pub check_permission : GoString → GoString → Call sdk ℕ
  check_permission gs1_code address w = elim (address == w.sudo_address) [
    | true ↦ (ok permission_su_address, w)
    | false ↦
        (do
          when_uncached load_cached_ons_manager
          gets (λ v.
              cached_permission gs1_code address v.cached_ons_managers v.cached_ons_sumanagers))
          w
  ]

  -- The error of a failed load is logged and dropped.
  unfoldable pub get_gs1_code_manager_address : GoString → Call sdk (Option GoString)
  get_gs1_code_manager_address gs1_code = do
    _ ← attempt (when_uncached load_cached_ons_manager)
    gets (λ w. lookup_map gs1_code w.cached_ons_managers)

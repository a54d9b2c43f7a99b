-- ===== src/Handler/Permission.antt =====
-- `GetPermissionLevel`.
use ons_sawtooth.Base.Logic.{ℕ, Bool, true, false, leb}
use ons_sawtooth.Base.Text.{GoString}
use ons_sawtooth.Base.Outcome.{
  invalid_transaction, success, failure, pure, fail, attempt, ◌>>=◌, Reply,
}
use ons_sawtooth.Sdk.{Sdk}
use ons_sawtooth.World.{Call}
use ons_sawtooth.Manager.Cache.{check_permission}

-- An error of the check counts as no permission.
abbrev pub is_allowed : ℕ → Reply ℕ → Bool
is_allowed require_perm (success permission) = leb permission require_perm
is_allowed require_perm (failure _) = false

module _ (sdk : Sdk) where
  unfoldable pub get_permission_level : GoString → GoString → ℕ → Call sdk Bool
  get_permission_level gs1_code requestor require_perm = do
    permission ← attempt (check_permission sdk gs1_code requestor)
    pure (is_allowed require_perm permission)

  -- The check at the head of a handler: the rest runs only with the permission.
  abbrev pub if_permitted :
      GoString → GoString → ℕ → GoString → Call sdk (Unit {0}) → Call sdk (Unit {0})
  if_permitted gs1_code requestor require_perm message rest = do
    allowed ← get_permission_level gs1_code requestor require_perm
    elim allowed [ true ↦ rest | false ↦ fail (invalid_transaction message) ]

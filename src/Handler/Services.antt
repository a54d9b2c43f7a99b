-- ===== src/Handler/Services.antt =====
-- Transactions on service types. The request is read through its fields, not its getters, so a
-- missing one is a nil pointer that the handler follows.
use ons_sawtooth.Base.Logic.{[], Option, none, some, true, false}
use ons_sawtooth.Base.Text.{GoString, text, ◌==◌}
use ons_sawtooth.Base.Outcome.{invalid_transaction, pure, fail, crash, ◌>>=◌}
use ons_sawtooth.Proto.State.{ServiceType}
use ons_sawtooth.Proto.Payload.{
  RegisterServiceTypeTransactionData, DeregisterServiceTypeTransactionData,
}
use ons_sawtooth.Sdk.{Sdk}
use ons_sawtooth.World.{Call}
use ons_sawtooth.Manager.Cache.{permission_su_manager}
use ons_sawtooth.Service.{load_service_type, save_service_type, delete_service_type}
use ons_sawtooth.Handler.Permission.{if_permitted}

module _ (sdk : Sdk) where
  -- Following a pointer.
  abbrev pub deref : {A : Type 0} → Option A → Call sdk A
  deref none = crash
  deref (some a) = pure a

  abbrev pub save_if_free :
      RegisterServiceTypeTransactionData → Option ServiceType → Call sdk (Unit {0})
  save_if_free r (some _) = fail (invalid_transaction (text "The same service type already exists"))
  save_if_free r none = save_service_type sdk r.address r.service_type

  unfoldable pub apply_register_service_type :
      Option RegisterServiceTypeTransactionData → GoString → Call sdk (Unit {0})
  apply_register_service_type request requestor =
      if_permitted sdk [] requestor permission_su_manager
        (text "applyRegiserServiceType : Authentication failed")
        (do r ← deref request; tmp_data ← load_service_type sdk r.address; save_if_free r tmp_data)

  abbrev pub delete_if_provided : GoString → GoString → Option ServiceType → Call sdk (Unit {0})
  delete_if_provided address requestor none =
      fail (invalid_transaction (text "The service type doesn't exists"))
  delete_if_provided address requestor (some s) = elim (s.provider == requestor) [
    | true ↦ delete_service_type sdk address
    | false ↦ fail (
        invalid_transaction
          (text "Requestor's public key doesn't match with provider pubic key of Service Type"))
  ]

  unfoldable pub apply_deregister_service_type :
      Option DeregisterServiceTypeTransactionData → GoString → Call sdk (Unit {0})
  apply_deregister_service_type request requestor =
      if_permitted sdk [] requestor permission_su_manager
        (text "applyDeregiserServiceType : Authentication failed")
        (do
          r ← deref request
          tmp_data ← load_service_type sdk r.address
          delete_if_provided r.address requestor tmp_data)

-- ===== src/Handler/Codes.antt =====
-- Transactions on GS1 codes: registration, removal, change of state.
use ons_sawtooth.Base.Logic.{[], Option, none, some, true, false}
use ons_sawtooth.Base.Text.{GoString, text, ◌==◌}
use ons_sawtooth.Base.Outcome.{invalid_transaction, pure, fail, ◌>>=◌}
use ons_sawtooth.Proto.State.{Gs1CodeData, gs1code_inactive}
use ons_sawtooth.Proto.Payload.{
  RegisterGs1CodeTransactionData, DeregisterGs1CodeTransactionData,
  ChangeGs1CodeStateTransactionData,
}
use ons_sawtooth.Proto.Getters.{
  get_gs1_code_of_register_gs1_code, get_owner_id_of_register_gs1_code,
  get_gs1_code_of_deregister_gs1_code, get_gs1_code_of_change_gs1_code_state,
  get_state_of_change_gs1_code_state,
}
use ons_sawtooth.Sdk.{Sdk}
use ons_sawtooth.World.{Call}
use ons_sawtooth.Manager.Cache.{permission_su_manager}
use ons_sawtooth.Registry.{load_gs1_code, save_gs1_code, delete_gs1_code}
use ons_sawtooth.Handler.Permission.{if_permitted}

abbrev pub new_gs1_code : Option RegisterGs1CodeTransactionData → Gs1CodeData
new_gs1_code request = record {
  gs1_code = get_gs1_code_of_register_gs1_code request;
  owner_id = get_owner_id_of_register_gs1_code request;
  records = none;
  state = gs1code_inactive;
}

module _ (sdk : Sdk) where
  -- `if gs1_code_data == nil { … "GS1 Code doesn't exist" }`
  abbrev pub existing : Option Gs1CodeData → Call sdk Gs1CodeData
  existing none = fail (invalid_transaction (text "GS1 Code doesn't exist"))
  existing (some data_of_code) = pure data_of_code

  abbrev pub register_if_new :
      Option RegisterGs1CodeTransactionData → Option Gs1CodeData → Call sdk (Unit {0})
  register_if_new request (some _) = fail (invalid_transaction (text "GS1 Code already exists"))
  register_if_new request none = save_gs1_code sdk (new_gs1_code request)

  unfoldable pub apply_register_gs1_code :
      Option RegisterGs1CodeTransactionData → GoString → Call sdk (Unit {0})
  apply_register_gs1_code request requestor =
      if_permitted sdk [] requestor permission_su_manager
        (text "applyRegiserGS1Code : Authentication failed")
        (load_gs1_code sdk (get_gs1_code_of_register_gs1_code request) >>= register_if_new request)

  abbrev pub deregister_owned :
      Option DeregisterGs1CodeTransactionData → GoString → Gs1CodeData → Call sdk (Unit {0})
  deregister_owned request requestor gs1_code_data = elim (gs1_code_data.owner_id == requestor) [
    | true ↦ delete_gs1_code sdk (get_gs1_code_of_deregister_gs1_code request)
    | false ↦ fail (
        invalid_transaction
          (text "Requestor's public key doesn't match with owner pubic key of GS1 Code"))
  ]

  unfoldable pub apply_deregister_gs1_code :
      Option DeregisterGs1CodeTransactionData → GoString → Call sdk (Unit {0})
  apply_deregister_gs1_code request requestor =
      if_permitted sdk [] requestor permission_su_manager
        (text "applyDeregiserGS1Code : Authentication failed")
        (do
          found ← load_gs1_code sdk (get_gs1_code_of_deregister_gs1_code request)
          gs1_code_data ← existing found
          deregister_owned request requestor gs1_code_data)

  unfoldable pub apply_change_gs1_code_state :
      Option ChangeGs1CodeStateTransactionData → GoString → Call sdk (Unit {0})
  apply_change_gs1_code_state request requestor =
      if_permitted sdk [] requestor permission_su_manager
        (text "applyChangeGS1CodeState : Authentication failed")
        (do
          found ← load_gs1_code sdk (get_gs1_code_of_change_gs1_code_state request)
          gs1_code_data ← existing found
          save_gs1_code sdk
              (record gs1_code_data { state = get_state_of_change_gs1_code_state request }))

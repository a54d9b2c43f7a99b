-- ===== src/Handler/Managers.antt =====
-- Transactions on managers.
use ons_sawtooth.Base.Logic.{[], Option, true, false}
use ons_sawtooth.Base.Text.{GoString, text, ◌==◌}
use ons_sawtooth.Proto.Payload.{
  AddManagerTransactionData, RemoveManagerTransactionData, AddSuManagerTransactionData,
  RemoveSuManagerTransactionData, OpManagerTransactionData,
}
use ons_sawtooth.Proto.Getters.{
  get_gs1_code_of_add_manager, get_address_of_add_manager, get_gs1_code_of_remove_manager,
  get_address_of_add_sumanager, get_address_of_remove_sumanager, get_op_of_op_manager,
}
use ons_sawtooth.Sdk.{Sdk}
use ons_sawtooth.World.{Call}
use ons_sawtooth.Manager.Cache.{permission_su_address, permission_su_manager}
use ons_sawtooth.Manager.Edit.{
  add_gs1_code_manager, remove_gs1_code_manager, delete_all_manager, add_su_manager,
  remove_su_manager, operate_manager,
}
use ons_sawtooth.Handler.Permission.{if_permitted}

module _ (sdk : Sdk) where
  -- The code "0" deletes all managers.
  unfoldable pub apply_add_manager :
      Option AddManagerTransactionData → GoString → Call sdk (Unit {0})
  apply_add_manager request requestor =
      if_permitted sdk [] requestor permission_su_manager
        (text "applyChangeRecordState : Authentication failed")
        (elim (get_gs1_code_of_add_manager request == text "0") [
          | true ↦ delete_all_manager sdk
          | false ↦
              add_gs1_code_manager sdk (get_gs1_code_of_add_manager request)
                (get_address_of_add_manager request) requestor
        ])

  unfoldable pub apply_remove_manager :
      Option RemoveManagerTransactionData → GoString → Call sdk (Unit {0})
  apply_remove_manager request requestor =
      if_permitted sdk [] requestor permission_su_manager
        (text "applyChangeRecordState : Authentication failed")
        (remove_gs1_code_manager sdk (get_gs1_code_of_remove_manager request) requestor)

  unfoldable pub apply_add_su_manager :
      Option AddSuManagerTransactionData → GoString → Call sdk (Unit {0})
  apply_add_su_manager request requestor =
      if_permitted sdk [] requestor permission_su_address
        (text "applyChangeRecordState : Authentication failed")
        (add_su_manager sdk (get_address_of_add_sumanager request) requestor)

  unfoldable pub apply_remove_su_manager :
      Option RemoveSuManagerTransactionData → GoString → Call sdk (Unit {0})
  apply_remove_su_manager request requestor =
      if_permitted sdk [] requestor permission_su_address
        (text "applyChangeRecordState : Authentication failed")
        (remove_su_manager sdk (get_address_of_remove_sumanager request) requestor)

  unfoldable pub apply_op_manager : Option OpManagerTransactionData → GoString → Call sdk (Unit {0})
  apply_op_manager request requestor = operate_manager sdk (get_op_of_op_manager request) requestor

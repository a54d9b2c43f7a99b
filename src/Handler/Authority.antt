-- ===== src/Handler/Authority.antt =====
-- Who may send a transaction, and what a transaction of anyone else comes to.
use ons_sawtooth.Base.Logic.{ℕ, ◌≤◌, ◌≡◌, ◌≢◌, inl, inr, [], Option, none, some, arith}
use ons_sawtooth.Base.Text.{GoString, Bytes}
use ons_sawtooth.Base.Outcome.{Outcome, ok, success, Reply-cases}
use ons_sawtooth.Proto.Payload.{
  OnsTransactionType, register_gs1code, deregister_gs1code, add_record, remove_record,
  register_servicetype, deregister_servicetype, change_gs1code_state, change_record_state,
  add_manager, remove_manager, add_sumanager, remove_sumanager, op_manager, other_transaction_type,
  SendOnsTransactionPayload, OpManagerTransactionData,
}
use ons_sawtooth.Proto.Getters.{get_gs1_code_of_add_record, get_gs1_code_of_remove_record}
use ons_sawtooth.Sdk.{Sdk}
use ons_sawtooth.World.{World, Call}
use ons_sawtooth.Manager.Cache.{permission_manager}
use ons_sawtooth.Manager.Edit.{operate_manager}
use ons_sawtooth.Handler.Permission.{get_permission_level, if_permitted}
use ons_sawtooth.Handler.Gate.{MayEdit, gate_without_code, gate_sound, if_permitted_stopped}
use ons_sawtooth.Handler.Codes.{
  apply_register_gs1_code, apply_deregister_gs1_code, apply_change_gs1_code_state,
}
use ons_sawtooth.Handler.Records.{apply_add_record, apply_remove_record, apply_change_record_state}
use ons_sawtooth.Handler.Services.{apply_register_service_type, apply_deregister_service_type}
use ons_sawtooth.Handler.Managers.{
  apply_add_manager, apply_remove_manager, apply_add_su_manager, apply_remove_su_manager,
  apply_op_manager,
}
use ons_sawtooth.Handler.Apply.{dispatch, apply, unpack_payload}

module _ (sdk : Sdk) where
  -- The call has failed, and the ledger is as it was.
  abbrev pub Refused : World sdk.Store → Outcome (Unit {0}) × World sdk.Store → Type 0
  Refused w r = (r.0 ≢ ok tt) × (r.1.store ≡ w.store)

  stopped :
      (message requestor : GoString) (level : ℕ) (rest : Call sdk (Unit {0})) (w : World sdk.Store)
      → level ≤ permission_manager
      → requestor ≢ w.sudo_address
      → Refused w (if_permitted sdk [] requestor level message rest w)
  stopped message requestor level rest w l ne =
      if_permitted_stopped sdk [] requestor message level rest w
        (λ e. ne (gate_without_code sdk requestor level w l e))

  operate_stopped :
      (request : Option OpManagerTransactionData) (requestor : GoString) (w : World sdk.Store)
      → requestor ≢ w.sudo_address
      → Refused w (apply_op_manager sdk request requestor w)
  unfolding apply_op_manager operate_manager
  operate_stopped request requestor w ne = ground arith

  -- The code whose records a transaction edits; `none` for a transaction of any other kind.
  abbrev pub edited_code : OnsTransactionType → SendOnsTransactionPayload → Option GoString
  edited_code add_record p = some (get_gs1_code_of_add_record p.add_record_data)
  edited_code remove_record p = some (get_gs1_code_of_remove_record p.remove_record_data)
  edited_code _ p = none

  -- Who may send it: for the records of a code also its managers, by the cache that the check reads.
  abbrev pub MaySend : Option GoString → GoString → World sdk.Store → Type 0
  MaySend none requestor w = requestor ≡ w.sudo_address
  MaySend (some gs1_code) requestor w =
      MayEdit sdk gs1_code requestor
        (get_permission_level sdk gs1_code requestor permission_manager w).1

  dispatch-Refused :
      (t : OnsTransactionType) (p : SendOnsTransactionPayload) (requestor : GoString)
      (w : World sdk.Store)
      → ¬ MaySend (edited_code t p) requestor w
      → Refused w (dispatch sdk t p requestor w)
  unfolding dispatch apply_add_record apply_remove_record apply_register_gs1_code
      apply_deregister_gs1_code apply_change_gs1_code_state apply_change_record_state
      apply_register_service_type apply_deregister_service_type apply_add_manager
      apply_remove_manager apply_add_su_manager apply_remove_su_manager
  dispatch-Refused add_record p requestor w ne =
      let c = get_gs1_code_of_add_record p.add_record_data in
      if_permitted_stopped sdk c requestor _ _ _ w (λ e. ne (gate_sound sdk c requestor w e))
  dispatch-Refused remove_record p requestor w ne =
      let c = get_gs1_code_of_remove_record p.remove_record_data in
      if_permitted_stopped sdk c requestor _ _ _ w (λ e. ne (gate_sound sdk c requestor w e))
  dispatch-Refused op_manager p requestor w ne = operate_stopped p.op_manager_data requestor w ne
  dispatch-Refused (other_transaction_type n) p requestor w ne = ground arith
  dispatch-Refused register_gs1code p requestor w ne = stopped _ requestor _ _ w (omega arith) ne
  dispatch-Refused deregister_gs1code p requestor w ne = stopped _ requestor _ _ w (omega arith) ne
  dispatch-Refused change_gs1code_state p requestor w ne =
      stopped _ requestor _ _ w (omega arith) ne
  dispatch-Refused change_record_state p requestor w ne = stopped _ requestor _ _ w (omega arith) ne
  dispatch-Refused register_servicetype p requestor w ne =
      stopped _ requestor _ _ w (omega arith) ne
  dispatch-Refused deregister_servicetype p requestor w ne =
      stopped _ requestor _ _ w (omega arith) ne
  dispatch-Refused add_manager p requestor w ne = stopped _ requestor _ _ w (omega arith) ne
  dispatch-Refused remove_manager p requestor w ne = stopped _ requestor _ _ w (omega arith) ne
  dispatch-Refused add_sumanager p requestor w ne = stopped _ requestor _ _ w (omega arith) ne
  dispatch-Refused remove_sumanager p requestor w ne = stopped _ requestor _ _ w (omega arith) ne

  -- A payload that does not unpack, or whose sender is neither the super user nor, for a record to
  -- be added or removed, by the cache as the check leaves it a super manager or the manager of the
  -- code, is refused: the call does not succeed, and the ledger is as it was.
  pub apply-Refused :
      (requestor : GoString) (payload : Bytes) (w : World sdk.Store)
      → ((p : SendOnsTransactionPayload)
          → unpack_payload sdk payload ≡ success p
          → ¬ MaySend (edited_code p.transaction_type p) requestor w)
      → Refused w (apply sdk requestor payload w)
  unfolding apply
  apply-Refused requestor payload w h = elim (Reply-cases (unpack_payload sdk payload)) [
    | inr (e, no_payload) ↦ rw no_payload (ground arith)
    | inl (p, unpacked) ↦
        rw unpacked (dispatch-Refused p.transaction_type p requestor w (h p unpacked))
  ]

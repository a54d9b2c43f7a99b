-- ===== src/Handler/Sudo.antt =====
-- Who the super user is, from the start of the processor and through any transactions.
use ons_sawtooth.Base.Logic.{
  ℕ, ℕ_discrete, ◌≡◌, ◌≢◌, refl, ap, sym, ◌∙◌, arith, Option, none, some, false, List, [], ◌∷◌,
}
use ons_sawtooth.Base.Text.{GoString, Bytes, text, GoString-discrete}
use ons_sawtooth.Base.Outcome.{ok, ◌>>=◌, or_return}
use ons_sawtooth.Proto.State.{Gs1CodeData, ServiceType}
use ons_sawtooth.Proto.Payload.{
  OnsTransactionType, register_gs1code, deregister_gs1code, add_record, remove_record,
  register_servicetype, deregister_servicetype, change_gs1code_state, change_record_state,
  add_manager, remove_manager, add_sumanager, remove_sumanager, op_manager, other_transaction_type,
  SendOnsTransactionPayload, RegisterGs1CodeTransactionData, RegisterServiceTypeTransactionData,
}
use ons_sawtooth.Proto.Getters.{
  get_gs1_code_of_deregister_gs1_code, get_gs1_code_of_add_manager, get_address_of_add_manager,
}
use ons_sawtooth.Sdk.{Sdk}
use ons_sawtooth.World.{World, Call, initial_world}
use ons_sawtooth.Manager.Storage.{set_sudo_address}
use ons_sawtooth.Manager.Sudo.{
  SameSudo, bind-SameSudo, add_gs1_code_manager-SameSudo, remove_gs1_code_manager-SameSudo,
  add_su_manager-SameSudo, remove_su_manager-SameSudo, delete_all_manager-SameSudo,
  operate_manager-SameSudo,
}
use ons_sawtooth.Registry.{load_gs1_code, save_gs1_code, delete_gs1_code}
use ons_sawtooth.Registry.Laws.{load_gs1_code-registry}
use ons_sawtooth.Service.{load_service_type, save_service_type, delete_service_type}
use ons_sawtooth.Service.Laws.{load_service_type-catalog}
use ons_sawtooth.Handler.Permission.{get_permission_level, if_permitted}
use ons_sawtooth.Handler.Gate.{get_permission_level-ReadsOnly}
use ons_sawtooth.Handler.Codes.{
  new_gs1_code, existing, register_if_new, deregister_owned, apply_register_gs1_code,
  apply_deregister_gs1_code, apply_change_gs1_code_state,
}
use ons_sawtooth.Handler.Records.{
  remove_at, change_state_at, apply_add_record, apply_remove_record, apply_change_record_state,
}
use ons_sawtooth.Handler.Services.{
  deref, save_if_free, delete_if_provided, apply_register_service_type,
  apply_deregister_service_type,
}
use ons_sawtooth.Handler.Managers.{
  apply_add_manager, apply_remove_manager, apply_add_su_manager, apply_remove_su_manager,
  apply_op_manager,
}
use ons_sawtooth.Handler.Apply.{dispatch, apply, unpack_payload}

module _ (sdk : Sdk) where
  if_permitted-SameSudo :
      (c requestor message : GoString) (level : ℕ) (rest : Call sdk (Unit {0}))
      → SameSudo sdk rest
      → SameSudo sdk (if_permitted sdk c requestor level message rest)
  if_permitted-SameSudo c requestor message level rest h w =
      let v = (get_permission_level sdk c requestor level w).1 in
      ground (arith, get_permission_level-ReadsOnly sdk c requestor level w, h v)

  save_gs1_code-SameSudo : (m : Gs1CodeData) → SameSudo sdk (save_gs1_code sdk m)
  unfolding save_gs1_code
  save_gs1_code-SameSudo m w = ground arith

  delete_gs1_code-SameSudo : (c : GoString) → SameSudo sdk (delete_gs1_code sdk c)
  unfolding delete_gs1_code
  delete_gs1_code-SameSudo c w = ground arith

  load_gs1_code-SameSudo : (c : GoString) → SameSudo sdk (load_gs1_code sdk c)
  load_gs1_code-SameSudo c w = ap (λ r. r.1.sudo_address) (load_gs1_code-registry sdk c w)

  load_service_type-SameSudo : (a : GoString) → SameSudo sdk (load_service_type sdk a)
  load_service_type-SameSudo a w = ap (λ r. r.1.sudo_address) (load_service_type-catalog sdk a w)

  save_service_type-SameSudo :
      (a : GoString) (m : Option ServiceType) → SameSudo sdk (save_service_type sdk a m)
  unfolding save_service_type
  save_service_type-SameSudo a m w = ground arith

  delete_service_type-SameSudo : (a : GoString) → SameSudo sdk (delete_service_type sdk a)
  unfolding delete_service_type
  delete_service_type-SameSudo a w = ground arith

  -- What follows the load of a code.
  existing-SameSudo :
      (c : GoString) (rest : Gs1CodeData → Call sdk (Unit {0}))
      → ((m : Gs1CodeData) → SameSudo sdk (rest m))
      → SameSudo sdk (load_gs1_code sdk c >>= (λ found. existing sdk found >>= rest))
  existing-SameSudo c rest h =
      bind-SameSudo sdk (load_gs1_code sdk c) (λ found. existing sdk found >>= rest)
        (load_gs1_code-SameSudo c)
        (λ found. bind-SameSudo sdk (existing sdk found) rest (λ w. ground arith) h)

  register_if_new-SameSudo :
      (request : Option RegisterGs1CodeTransactionData) (found : Option Gs1CodeData)
      → SameSudo sdk (register_if_new sdk request found)
  register_if_new-SameSudo request none w = save_gs1_code-SameSudo (new_gs1_code request) w
  register_if_new-SameSudo request (some m) w = refl

  save_if_free-SameSudo :
      (r : RegisterServiceTypeTransactionData) (found : Option ServiceType)
      → SameSudo sdk (save_if_free sdk r found)
  save_if_free-SameSudo r none w = save_service_type-SameSudo r.address r.service_type w
  save_if_free-SameSudo r (some m) w = refl

  delete_if_provided-SameSudo :
      (address requestor : GoString) (found : Option ServiceType)
      → SameSudo sdk (delete_if_provided sdk address requestor found)
  delete_if_provided-SameSudo address requestor none w = refl
  delete_if_provided-SameSudo address requestor (some m) w =
      ground (arith, delete_service_type-SameSudo address w)

  dispatch-SameSudo :
      (t : OnsTransactionType) (p : SendOnsTransactionPayload) (requestor : GoString)
      → SameSudo sdk (dispatch sdk t p requestor)
  unfolding dispatch apply_register_gs1_code apply_deregister_gs1_code apply_change_gs1_code_state
      apply_add_record apply_remove_record apply_change_record_state apply_register_service_type
      apply_deregister_service_type apply_add_manager apply_remove_manager apply_add_su_manager
      apply_remove_su_manager apply_op_manager
  dispatch-SameSudo register_gs1code p requestor = if_permitted-SameSudo _ requestor _ _ _ (
      bind-SameSudo sdk (load_gs1_code sdk _) (register_if_new sdk p.register_gs1_code)
        (load_gs1_code-SameSudo _) (register_if_new-SameSudo p.register_gs1_code))
  dispatch-SameSudo deregister_gs1code p requestor = if_permitted-SameSudo _ requestor _ _ _ (
      existing-SameSudo _ (deregister_owned sdk p.deregister_gs1_code requestor) (λ m w. ground (
        arith,
        delete_gs1_code-SameSudo (get_gs1_code_of_deregister_gs1_code p.deregister_gs1_code) w,
      )))
  dispatch-SameSudo change_gs1code_state p requestor =
      if_permitted-SameSudo _ requestor _ _ _
        (existing-SameSudo _ _ (λ m. save_gs1_code-SameSudo _))
  dispatch-SameSudo add_record p requestor =
      if_permitted-SameSudo _ requestor _ _ _
        (existing-SameSudo _ _ (λ m. save_gs1_code-SameSudo _))
  dispatch-SameSudo remove_record p requestor = if_permitted-SameSudo _ requestor _ _ _ (
      existing-SameSudo _ (remove_at sdk _ requestor)
        (λ m w. grind (arith, save_gs1_code-SameSudo)))
  dispatch-SameSudo change_record_state p requestor =
      if_permitted-SameSudo _ requestor _ _ _ (
        existing-SameSudo _ (change_state_at sdk _ _)
          (λ m w. grind (arith, save_gs1_code-SameSudo)))
  dispatch-SameSudo register_servicetype p requestor = if_permitted-SameSudo _ requestor _ _ _ (
      bind-SameSudo sdk (deref sdk p.register_service_type) _ (λ w. ground arith)
        (λ r.
          bind-SameSudo sdk (load_service_type sdk r.address) (save_if_free sdk r)
            (load_service_type-SameSudo r.address) (save_if_free-SameSudo r)))
  dispatch-SameSudo deregister_servicetype p requestor = if_permitted-SameSudo _ requestor _ _ _ (
      bind-SameSudo sdk (deref sdk p.deregister_service_type) _ (λ w. ground arith)
        (λ r.
          bind-SameSudo sdk (load_service_type sdk r.address)
            (delete_if_provided sdk r.address requestor) (load_service_type-SameSudo r.address)
            (delete_if_provided-SameSudo r.address requestor)))
  dispatch-SameSudo add_manager p requestor = if_permitted-SameSudo _ requestor _ _ _ (λ w. ground (
    arith,
    add_gs1_code_manager-SameSudo sdk (get_gs1_code_of_add_manager p.add_manager_data)
        (get_address_of_add_manager p.add_manager_data) requestor w,
    delete_all_manager-SameSudo sdk w,
  ))
  dispatch-SameSudo remove_manager p requestor =
      if_permitted-SameSudo _ requestor _ _ _ (remove_gs1_code_manager-SameSudo sdk _ requestor)
  dispatch-SameSudo add_sumanager p requestor =
      if_permitted-SameSudo _ requestor _ _ _ (add_su_manager-SameSudo sdk _ requestor)
  dispatch-SameSudo remove_sumanager p requestor =
      if_permitted-SameSudo _ requestor _ _ _ (remove_su_manager-SameSudo sdk _ requestor)
  dispatch-SameSudo op_manager p requestor = operate_manager-SameSudo sdk _ requestor
  dispatch-SameSudo (other_transaction_type n) p requestor = λ w. refl

  apply-SameSudo :
      (requestor : GoString) (payload : Bytes) → SameSudo sdk (apply sdk requestor payload)
  unfolding apply
  apply-SameSudo requestor payload =
      bind-SameSudo sdk (or_return (unpack_payload sdk payload)) _ (λ w. ground arith)
        (λ p. dispatch-SameSudo p.transaction_type p requestor)

  -- The transactions that the processor is given, one after the other, whatever comes of each.
  unfoldable pub run : List (GoString × Bytes) → World sdk.Store → World sdk.Store
  run [] w = w
  run ((requestor, payload) ∷ transactions) w = run transactions (apply sdk requestor payload w).1

  run-same_sudo :
      (transactions : List (GoString × Bytes)) (w : World sdk.Store)
      → (run transactions w).sudo_address ≡ w.sudo_address
  unfolding run
  run-same_sudo [] w = refl
  run-same_sudo ((requestor, payload) ∷ transactions) w =
      run-same_sudo transactions (apply sdk requestor payload w).1
      ∙ apply-SameSudo requestor payload w

  started_sudo :
      (address : GoString) (s : sdk.Store)
      → (set_sudo_address sdk address (initial_world s)).1.sudo_address ≡ address
  unfolding set_sudo_address initial_world GoString-discrete ℕ_discrete
  started_sudo address s = refl

  set_sudo_address_refused :
      (other : GoString) (w : World sdk.Store)
      → w.sudo_address ≢ text "empty"
      → set_sudo_address sdk other w ≡ (ok false, w)
  unfolding set_sudo_address
  set_sudo_address_refused other w given = ground arith

  -- A processor that is given a super user's address as it starts, and then these transactions.
  abbrev pub processor_after : GoString → sdk.Store → List (GoString × Bytes) → World sdk.Store
  processor_after address s transactions =
      run transactions (set_sudo_address sdk address (initial_world s)).1

  -- The address, other than "empty", that a processor is given at its start is that of the super user
  -- after any transactions, whoever signs them, and no later `SetSudoAddress` changes it.
  pub sudo_stays :
      (address other : GoString) (s : sdk.Store) (transactions : List (GoString × Bytes))
      → address ≢ text "empty"
      → ((processor_after address s transactions).sudo_address ≡ address)
        × (set_sudo_address sdk other (processor_after address s transactions)
            ≡ (ok false, processor_after address s transactions))
  sudo_stays address other s transactions given =
      let w = processor_after address s transactions in
      let kept : w.sudo_address ≡ address =
        run-same_sudo transactions (set_sudo_address sdk address (initial_world s)).1
        ∙ started_sudo address s in
      (kept, set_sudo_address_refused other w (λ e. given (sym kept ∙ e)))

-- ===== src/Client/Command.antt =====
-- The `main` of the command line client (src/ons_test/sawtooth-ons-test.go): from the action and the
-- options to the payload that is sent and the address it is sent for, or to the query. The flags
-- package, the key file and the service type file are arguments.
use ons_sawtooth.Base.Logic.{
  ℕ, List, [], ◌∷◌, Bool, true, false, ◌&&◌, Option, none, some, if◌then◌else◌,
}
use ons_sawtooth.Base.Text.{GoString, text, Bytes, ◌==◌}
use ons_sawtooth.Base.Outcome.{Reply, success, failure}
use ons_sawtooth.Proto.State.{ServiceType}
use ons_sawtooth.Proto.Payload.{SendOnsTransactionPayload}
use ons_sawtooth.Address.Client.{make_address_by_gs1_code, client_ons_manager_address}
use ons_sawtooth.Client.{
  make_op_manager_payload, make_register_gs1_code_payload, make_deregister_gs1_code_payload,
  make_add_record_payload, make_remove_record_payload, make_register_service_type_payload,
  make_deregister_service_type_payload, make_change_gstate_payload, make_change_rstate_payload,
  make_add_manager_payload, make_remove_manager_payload, make_add_su_manager_payload,
  make_remove_su_manager_payload,
}

-- The options that the choice of the payload reads.
pub record Opts : Type 0 where
  pub gs1_code : GoString
  pub service : GoString
  pub regexp : GoString
  pub flags : ℕ
  pub record_idx : ℕ
  pub service_type_address : GoString
  pub state : ℕ
  pub manager_address : GoString
  pub op : ℕ

-- The numbers `REGISTER_GS1CODE` to `GET_MNGR`.
pub data Action : Type 0 where
  register deregister add remove register_svc deregister_svc change_gstate change_rstate : Action
  add_mngr remove_mngr add_sumngr remove_sumngr op_mngr get get_svc get_mngr : Action

-- `transaction_type`, by the words `action_register` to `action_op_sumngr`, in the order of the
-- tests.
unfoldable pub action_of : GoString → Option Action
action_of arg =
    if arg == text "register"
    then some register
    else if arg == text "deregister"
    then some deregister
    else if arg == text "add"
    then some add
    else if arg == text "remove"
    then some remove
    else if arg == text "get"
    then some get
    else if arg == text "register_svc"
    then some register_svc
    else if arg == text "deregister_svc"
    then some deregister_svc
    else if arg == text "get_svc"
    then some get_svc
    else if arg == text "change_gstate"
    then some change_gstate
    else if arg == text "change_rstate"
    then some change_rstate
    else if arg == text "add_mngr"
    then some add_mngr
    else if arg == text "remove_mngr"
    then some remove_mngr
    else if arg == text "add_sumngr"
    then some add_sumngr
    else if arg == text "remove_sumngr"
    then some remove_sumngr
    else if arg == text "op_mngr"
    then some op_mngr
    else if arg == text "get_mngr"
    then some get_mngr
    else none

-- How the choice ends: the program exits with a code, asks the REST interface, or has a payload and
-- an address.
pub data Plan : Type 0 where
  exits : ℕ → Plan
  queries_gs1_code queries_service_type queries_ons_manager : GoString → Plan
  sends : SendOnsTransactionPayload → GoString → Plan

module _ (sha512 : Bytes → Bytes) (generated : Reply (ServiceType × GoString))
    (public_key : GoString) where
  -- `log.Fatal` in `MakeRegisterServiceTypePayload` exits with 1.
  abbrev pub plan_register_svc : Reply (ServiceType × GoString) → Plan
  plan_register_svc (success (service_type, address)) =
      sends (make_register_service_type_payload service_type address) address
  plan_register_svc (failure e) = exits 1

  abbrev pub own_address : Opts → GoString
  own_address opts = make_address_by_gs1_code sha512 opts.gs1_code

  -- The `switch` over the transaction type.
  unfoldable pub plan_of : Opts → Action → Plan
  plan_of opts register =
      sends (make_register_gs1_code_payload opts.gs1_code public_key) (own_address opts)
  plan_of opts deregister =
      sends (make_deregister_gs1_code_payload opts.gs1_code) (own_address opts)
  plan_of opts add =
      sends (make_add_record_payload opts.gs1_code opts.flags opts.service opts.regexp)
        (own_address opts)
  plan_of opts remove =
      sends (make_remove_record_payload opts.gs1_code opts.record_idx) (own_address opts)
  plan_of opts get = queries_gs1_code (own_address opts)
  plan_of opts get_svc = queries_service_type opts.service_type_address
  plan_of opts register_svc = plan_register_svc generated
  plan_of opts deregister_svc =
      sends (make_deregister_service_type_payload opts.service_type_address)
        opts.service_type_address
  plan_of opts change_gstate =
      sends (make_change_gstate_payload opts.gs1_code opts.state) (own_address opts)
  plan_of opts change_rstate =
      sends (make_change_rstate_payload opts.gs1_code opts.record_idx opts.state) (own_address opts)
  plan_of opts add_mngr =
      sends (make_add_manager_payload opts.gs1_code opts.manager_address)
        (client_ons_manager_address sha512)
  plan_of opts remove_mngr =
      sends (make_remove_manager_payload opts.gs1_code) (client_ons_manager_address sha512)
  plan_of opts add_sumngr =
      sends (make_add_su_manager_payload opts.manager_address) (client_ons_manager_address sha512)
  plan_of opts remove_sumngr =
      sends (make_remove_su_manager_payload opts.manager_address)
        (client_ons_manager_address sha512)
  plan_of opts op_mngr = sends (make_op_manager_payload opts.op) (client_ons_manager_address sha512)
  plan_of opts get_mngr = queries_ons_manager (client_ons_manager_address sha512)

  abbrev is_add_mngr : Action → Bool
  is_add_mngr add_mngr = true
  is_add_mngr register = false
  is_add_mngr deregister = false
  is_add_mngr add = false
  is_add_mngr remove = false
  is_add_mngr register_svc = false
  is_add_mngr deregister_svc = false
  is_add_mngr change_gstate = false
  is_add_mngr change_rstate = false
  is_add_mngr remove_mngr = false
  is_add_mngr add_sumngr = false
  is_add_mngr remove_sumngr = false
  is_add_mngr op_mngr = false
  is_add_mngr get = false
  is_add_mngr get_svc = false
  is_add_mngr get_mngr = false

  -- Of the arguments that are no options, the first is the action. A manager to be added needs an
  -- address.
  unfoldable pub plan : Opts → List GoString → Plan
  plan opts [] = exits 2
  plan opts (arg ∷ args) = elim (action_of arg) [
    | none ↦ exits 2
    | some action ↦
        if (opts.manager_address == []) && is_add_mngr action then exits 2 else plan_of opts action
  ]

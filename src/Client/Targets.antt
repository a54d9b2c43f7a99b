-- ===== src/Client/Targets.antt =====
-- The address that the client names as the output of a transaction, against what the handler writes.
use ons_sawtooth.Base.Logic.{◌≡◌, ◌≢◌, subst, ◌∙◌, List, [], ◌∷◌, Option-cases, arith, inl, inr}
use ons_sawtooth.Base.Text.{GoString}
use ons_sawtooth.Base.Outcome.{Reply, success, failure}
use ons_sawtooth.Proto.State.{ServiceType}
use ons_sawtooth.Proto.Payload.{
  OnsTransactionType, register_gs1code, deregister_gs1code, add_record, remove_record,
  register_servicetype, deregister_servicetype, change_gs1code_state, change_record_state,
  add_manager, remove_manager, add_sumanager, remove_sumanager, op_manager, other_transaction_type,
  SendOnsTransactionPayload,
}
use ons_sawtooth.Sdk.{Sdk, fetch}
use ons_sawtooth.Sdk.Laws.{IsLawful}
use ons_sawtooth.World.{World}
use ons_sawtooth.Address.Client.{make_address_by_gs1_code}
use ons_sawtooth.Address.Laws.{client_address_agrees}
use ons_sawtooth.Handler.Transitions.{CodeRelation}
use ons_sawtooth.Handler.Effect.{Effect, IsNamed, Effect-others}
use ons_sawtooth.Handler.CodeEffects.{
  apply_register_gs1_code-Effect, apply_deregister_gs1_code-Effect,
  apply_change_gs1_code_state-Effect,
}
use ons_sawtooth.Handler.RecordEffects.{
  apply_add_record-Effect, apply_remove_record-Effect, apply_change_record_state-Effect,
}
use ons_sawtooth.Handler.Apply.{dispatch}
use ons_sawtooth.Client.{
  make_register_gs1_code_payload, make_deregister_gs1_code_payload, make_add_record_payload,
  make_remove_record_payload, make_change_gstate_payload, make_change_rstate_payload,
}
use ons_sawtooth.Client.Command.{
  Opts, Action, register, deregister, add, remove, register_svc, deregister_svc, change_gstate,
  change_rstate, add_mngr, remove_mngr, add_sumngr, remove_sumngr, op_mngr, get, get_svc, get_mngr,
  action_of, Plan, exits, queries_gs1_code, queries_service_type, queries_ons_manager, sends,
  plan_register_svc, plan_of, plan,
}

-- The transactions on a code and on its records.
abbrev pub IsOfCode : OnsTransactionType → Type 0
IsOfCode register_gs1code = Unit
IsOfCode deregister_gs1code = Unit
IsOfCode add_record = Unit
IsOfCode remove_record = Unit
IsOfCode change_gs1code_state = Unit
IsOfCode change_record_state = Unit
IsOfCode register_servicetype = ⊥
IsOfCode deregister_servicetype = ⊥
IsOfCode add_manager = ⊥
IsOfCode remove_manager = ⊥
IsOfCode add_sumanager = ⊥
IsOfCode remove_sumanager = ⊥
IsOfCode op_manager = ⊥
IsOfCode (other_transaction_type n) = ⊥

module _ (sdk : Sdk) (law : IsLawful sdk) (generated : Reply (ServiceType × GoString))
    (public_key requestor : GoString) (opts : Opts) (w : World sdk.Store) where
  -- The handler changes nothing away from this address.
  abbrev pub WritesOnly : SendOnsTransactionPayload → GoString → Type 0
  WritesOnly p address =
      (other : GoString)
      → address ≢ other
      → fetch sdk other (dispatch sdk p.transaction_type p requestor w).1.store
        ≡ fetch sdk other w.store

  abbrev IsConfined : Plan → Type 0
  IsConfined (sends p address) = IsOfCode p.transaction_type → WritesOnly p address
  IsConfined (exits n) = Unit
  IsConfined (queries_gs1_code address) = Unit
  IsConfined (queries_service_type address) = Unit
  IsConfined (queries_ons_manager address) = Unit

  -- A payload whose handling has an effect on the code of the options is confined to its address.
  confined :
      (R : CodeRelation) (p : SendOnsTransactionPayload)
      → Effect sdk R opts.gs1_code w.store (dispatch sdk p.transaction_type p requestor w)
      → WritesOnly p (make_address_by_gs1_code sdk.sha512 opts.gs1_code)
  confined R p effect other apart =
      Effect-others sdk R opts.gs1_code other w.store
        (dispatch sdk p.transaction_type p requestor w) effect
        (λ e. apart (client_address_agrees sdk.sha512 opts.gs1_code ∙ e))

  plan_register_svc-IsConfined :
      (r : Reply (ServiceType × GoString))
      → IsConfined (plan_register_svc sdk.sha512 generated public_key r)
  plan_register_svc-IsConfined (success (service_type, address)) = λ of_code. elim of_code [ ]
  plan_register_svc-IsConfined (failure e) = tt

  plan_of-IsConfined :
      (action : Action)
      → opts.gs1_code ≢ []
      → IsNamed sdk w.store opts.gs1_code
      → IsConfined (plan_of sdk.sha512 generated public_key opts action)
  unfolding plan_of dispatch
  plan_of-IsConfined register nonempty named = λ _.
      confined _ (make_register_gs1_code_payload opts.gs1_code public_key)
        (apply_register_gs1_code-Effect sdk law requestor w _ nonempty)
  plan_of-IsConfined deregister nonempty named = λ _.
      confined _ (make_deregister_gs1_code_payload opts.gs1_code)
        (apply_deregister_gs1_code-Effect sdk law requestor w _)
  plan_of-IsConfined add nonempty named = λ _.
      confined _ (make_add_record_payload opts.gs1_code opts.flags opts.service opts.regexp)
        (apply_add_record-Effect sdk law requestor w _ nonempty named)
  plan_of-IsConfined remove nonempty named = λ _.
      confined _ (make_remove_record_payload opts.gs1_code opts.record_idx)
        (apply_remove_record-Effect sdk law requestor w _ nonempty named)
  plan_of-IsConfined change_gstate nonempty named = λ _.
      confined _ (make_change_gstate_payload opts.gs1_code opts.state)
        (apply_change_gs1_code_state-Effect sdk law requestor w _ nonempty named)
  plan_of-IsConfined change_rstate nonempty named = λ _.
      confined _ (make_change_rstate_payload opts.gs1_code opts.record_idx opts.state)
        (apply_change_record_state-Effect sdk law requestor w _ nonempty named)
  plan_of-IsConfined register_svc nonempty named = plan_register_svc-IsConfined generated
  plan_of-IsConfined deregister_svc nonempty named = λ of_code. elim of_code [ ]
  plan_of-IsConfined add_mngr nonempty named = λ of_code. elim of_code [ ]
  plan_of-IsConfined remove_mngr nonempty named = λ of_code. elim of_code [ ]
  plan_of-IsConfined add_sumngr nonempty named = λ of_code. elim of_code [ ]
  plan_of-IsConfined remove_sumngr nonempty named = λ of_code. elim of_code [ ]
  plan_of-IsConfined op_mngr nonempty named = λ of_code. elim of_code [ ]
  plan_of-IsConfined get nonempty named = tt
  plan_of-IsConfined get_svc nonempty named = tt
  plan_of-IsConfined get_mngr nonempty named = tt

  -- Under a lawful validator: if the client sends a transaction on a code or its records, for a
  -- code that is not empty and whose entry bears its name, then the handler, whatever comes of the
  -- transaction and whoever signs it, leaves the ledger as it was at every address but the one that
  -- the client names as the transaction's output.
  pub plan-writes :
      (args : List GoString) (p : SendOnsTransactionPayload) (address other : GoString)
      → plan sdk.sha512 generated public_key opts args ≡ sends p address
      → IsOfCode p.transaction_type
      → opts.gs1_code ≢ []
      → IsNamed sdk w.store opts.gs1_code
      → address ≢ other
      → fetch sdk other (dispatch sdk p.transaction_type p requestor w).1.store
        ≡ fetch sdk other w.store
  unfolding plan
  plan-writes [] p address other e of_code nonempty named apart = absurd (ground arith)
  plan-writes (arg ∷ rest) p address other e of_code nonempty named apart =
      elim (Option-cases (action_of arg)) [
        | inl unknown ↦ absurd (ground arith)
        | inr (action, known) ↦
            let came : plan_of sdk.sha512 generated public_key opts action ≡ sends p address =
              ground arith in
            subst IsConfined came (plan_of-IsConfined action nonempty named) of_code other apart
      ]

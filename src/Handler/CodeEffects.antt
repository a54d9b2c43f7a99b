-- ===== src/Handler/CodeEffects.antt =====
-- The handlers of GS1 codes, as relations on the abstract registry.
use ons_sawtooth.Base.Logic.{◌≡◌, ◌≢◌, refl, inr, [], Option, none, some, arith}
use ons_sawtooth.Base.Text.{GoString}
use ons_sawtooth.Proto.State.{Gs1CodeData}
use ons_sawtooth.Proto.Payload.{
  RegisterGs1CodeTransactionData, DeregisterGs1CodeTransactionData,
  ChangeGs1CodeStateTransactionData,
}
use ons_sawtooth.Proto.Getters.{
  get_gs1_code_of_register_gs1_code, get_owner_id_of_register_gs1_code,
  get_gs1_code_of_deregister_gs1_code, get_gs1_code_of_change_gs1_code_state,
  get_state_of_change_gs1_code_state,
}
use ons_sawtooth.Sdk.{Sdk}
use ons_sawtooth.Sdk.Laws.{IsLawful}
use ons_sawtooth.World.{World, Call}
use ons_sawtooth.Registry.{load_gs1_code, save_gs1_code, delete_gs1_code}
use ons_sawtooth.Base.Outcome.{ok, ◌>>=◌}
use ons_sawtooth.Registry.Laws.{registry}
use ons_sawtooth.Handler.Codes.{
  apply_register_gs1_code, apply_deregister_gs1_code, apply_change_gs1_code_state, register_if_new,
  deregister_owned, existing, new_gs1_code,
}
use ons_sawtooth.Handler.Transitions.{CodeRelation, Registers, Deregisters, SetsState}
use ons_sawtooth.Handler.Effect.{
  Effect, IsNamed, IsNamed-transport, if_permitted-Effect, load-Effect, save-Effect, delete-Effect,
}

module _ (sdk : Sdk) (law : IsLawful sdk) where
  -- What follows the test that the code exists.
  pub load_existing-Effect :
      (R : CodeRelation) (gs1_code : GoString) (rest : Gs1CodeData → Call sdk (Unit {0}))
      (w : World sdk.Store)
      → ((m : Gs1CodeData)
          → registry sdk w.store gs1_code ≡ ok (some m)
          → Effect sdk R gs1_code w.store (rest m w))
      → Effect sdk R gs1_code w.store
          ((load_gs1_code sdk gs1_code >>= (λ found. existing sdk found >>= rest)) w)
  load_existing-Effect R gs1_code rest w h =
      load-Effect sdk law R gs1_code (λ found. existing sdk found >>= rest) w (cases h)
    where
      cases :
          ((m : Gs1CodeData)
            → registry sdk w.store gs1_code ≡ ok (some m)
            → Effect sdk R gs1_code w.store (rest m w))
          → (found : Option Gs1CodeData) → registry sdk w.store gs1_code ≡ ok found
          → Effect sdk R gs1_code w.store ((existing sdk found >>= rest) w)
      cases h none e = inr (ground arith, refl)
      cases h (some m) e = h m e

  register_if_new-Effect :
      (request : Option RegisterGs1CodeTransactionData) (found : Option Gs1CodeData)
      (w : World sdk.Store)
      → get_gs1_code_of_register_gs1_code request ≢ []
      → registry sdk w.store (get_gs1_code_of_register_gs1_code request) ≡ ok found
      → Effect sdk
          (Registers
            (get_gs1_code_of_register_gs1_code request)
            (get_owner_id_of_register_gs1_code request))
          (get_gs1_code_of_register_gs1_code request)
          w.store
          (register_if_new sdk request found w)
  register_if_new-Effect request (some m) w nonempty was = inr (ground arith, refl)
  register_if_new-Effect request none w nonempty was =
      let c = get_gs1_code_of_register_gs1_code request in
      save-Effect sdk law (Registers c (get_owner_id_of_register_gs1_code request)) c none
        (new_gs1_code request) w nonempty refl was Registers.registers

  deregister_owned-Effect :
      (request : Option DeregisterGs1CodeTransactionData) (requestor : GoString) (m : Gs1CodeData)
      (w : World sdk.Store)
      → registry sdk w.store (get_gs1_code_of_deregister_gs1_code request) ≡ ok (some m)
      → Effect sdk
          (Deregisters requestor)
          (get_gs1_code_of_deregister_gs1_code request)
          w.store
          (deregister_owned sdk request requestor m w)
  deregister_owned-Effect request requestor m w was =
      let c = get_gs1_code_of_deregister_gs1_code request in
      let deleted : m.owner_id ≡ requestor
          → Effect sdk (Deregisters requestor) c w.store (delete_gs1_code sdk c w) =
        λ owned.
          delete-Effect sdk law (Deregisters requestor) c m w was
            (Deregisters.deregisters m owned) in
      ground (arith, deleted)

module _ (sdk : Sdk) (law : IsLawful sdk) (requestor : GoString) (w : World sdk.Store) where
  -- Registration of a code that is not empty, under a lawful validator, either succeeds, and then
  -- the code was unknown, is afterwards known with the request's owner, inactive and without
  -- records, and the ledger is the same at every other address; or does not succeed and leaves
  -- the ledger as it was.
  pub apply_register_gs1_code-Effect :
      (request : Option RegisterGs1CodeTransactionData)
      → get_gs1_code_of_register_gs1_code request ≢ []
      → Effect sdk
          (Registers
            (get_gs1_code_of_register_gs1_code request)
            (get_owner_id_of_register_gs1_code request))
          (get_gs1_code_of_register_gs1_code request)
          w.store
          (apply_register_gs1_code sdk request requestor w)
  unfolding apply_register_gs1_code
  apply_register_gs1_code-Effect request nonempty =
      let c = get_gs1_code_of_register_gs1_code request in
      let R = Registers c (get_owner_id_of_register_gs1_code request) in
      if_permitted-Effect sdk R [] requestor _ c _ _ w (λ v same.
        load-Effect sdk law R c (register_if_new sdk request) v
          (λ found. register_if_new-Effect sdk law request found v nonempty))

  -- Deregistration, under a lawful validator, either succeeds, and then the code was known with the
  -- requestor as its owner, is afterwards unknown, and the ledger is the same at every other
  -- address; or does not succeed and leaves the ledger as it was.
  pub apply_deregister_gs1_code-Effect :
      (request : Option DeregisterGs1CodeTransactionData)
      → Effect sdk
          (Deregisters requestor)
          (get_gs1_code_of_deregister_gs1_code request)
          w.store
          (apply_deregister_gs1_code sdk request requestor w)
  unfolding apply_deregister_gs1_code
  apply_deregister_gs1_code-Effect request =
      let c = get_gs1_code_of_deregister_gs1_code request in
      let R = Deregisters requestor in
      if_permitted-Effect sdk R [] requestor _ c _ _ w (λ v same.
        load_existing-Effect sdk law R c (deregister_owned sdk request requestor) v
          (λ m. deregister_owned-Effect sdk law request requestor m v))

  -- Under a lawful validator, at a code that is not empty and whose entry bears its name, a change
  -- of a code's state either succeeds, and then the code was known, afterwards has the request's
  -- state and all else it had, as that stands on the wire, and the ledger is the same at every
  -- other address; or does not succeed and leaves the ledger as it was.
  pub apply_change_gs1_code_state-Effect :
      (request : Option ChangeGs1CodeStateTransactionData)
      → get_gs1_code_of_change_gs1_code_state request ≢ []
      → IsNamed sdk w.store (get_gs1_code_of_change_gs1_code_state request)
      → Effect sdk
          (SetsState (get_state_of_change_gs1_code_state request))
          (get_gs1_code_of_change_gs1_code_state request)
          w.store
          (apply_change_gs1_code_state sdk request requestor w)
  unfolding apply_change_gs1_code_state
  apply_change_gs1_code_state-Effect request nonempty named =
      let c = get_gs1_code_of_change_gs1_code_state request in
      let s = get_state_of_change_gs1_code_state request in
      let R = SetsState s in
      if_permitted-Effect sdk R [] requestor _ c _ _ w (λ v same.
        load_existing-Effect sdk law R c (λ m. save_gs1_code sdk (record m { state = s })) v
          (λ m was.
            save-Effect sdk law R c (some m) (record m { state = s }) v nonempty
              (IsNamed-transport sdk w.store v.store c same named m was) was
              (SetsState.sets_state m)))

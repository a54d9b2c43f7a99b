-- ===== src/Handler/Success.antt =====
-- When a transaction succeeds, and what the registry holds then: the counterpart of the effects,
-- for a validator that accepts every write and messages that marshal.
use ons_sawtooth.Base.Logic.{◌≡◌, ◌≢◌, ◌⊎◌, inl, inr, List, [], ◌∷◌, Option, none, some, arith}
use ons_sawtooth.Base.Text.{GoString, Bytes, text}
use ons_sawtooth.Base.Outcome.{Outcome, ok, err, invalid_transaction, success, ◌>>=◌}
use ons_sawtooth.Proto.State.{Gs1CodeData, OnsManager}
use ons_sawtooth.Proto.Payload.{RegisterGs1CodeTransactionData, DeregisterGs1CodeTransactionData}
use ons_sawtooth.Proto.Getters.{
  get_gs1_code_of_register_gs1_code, get_gs1_code_of_deregister_gs1_code,
}
use ons_sawtooth.Sdk.{Sdk}
use ons_sawtooth.Sdk.Laws.{IsLawful, wire_gs1_code}
use ons_sawtooth.World.{World}
use ons_sawtooth.Registry.{load_gs1_code, save_gs1_code, delete_gs1_code}
use ons_sawtooth.Registry.Laws.{
  address_of, registry, load_gs1_code-registry, registry-readable, Saved-registry,
  save_gs1_code-cases, delete_gs1_code-cases,
}
use ons_sawtooth.Manager.Cache.{permission_su_manager}
use ons_sawtooth.Handler.Gate.{if_permitted_sudo}
use ons_sawtooth.Handler.Codes.{
  apply_register_gs1_code, apply_deregister_gs1_code, new_gs1_code, register_if_new, existing,
  deregister_owned,
}

-- The validator accepts what it is sent, and the messages marshal.
pub record IsAccepting (sdk : Sdk) : Type 0 where
  pub gs1_code_marshals :
      (m : Gs1CodeData) → (b : Bytes) × (sdk.gs1_code_codec.marshal (some m) ≡ success b)
  pub ons_manager_marshals :
      (m : OnsManager) → (b : Bytes) × (sdk.ons_manager_codec.marshal (some m) ≡ success b)
  pub sets :
      (a : GoString) (d : Bytes) (s : sdk.Store)
      → (x : GoString) × (xs : List GoString) × ((sdk.set_state ((a, d) ∷ []) s).0
          ≡ success (x ∷ xs))
  pub deletes :
      (a : GoString) (s : sdk.Store)
      → (x : GoString) × (xs : List GoString) × ((sdk.delete_state (a ∷ []) s).0 ≡ success (x ∷ xs))

module _ (sdk : Sdk) where
  -- The call succeeds, and leaves this in the registry.
  abbrev pub Leaves : GoString → Option Gs1CodeData → Outcome (Unit {0}) × World sdk.Store → Type 0
  Leaves gs1_code after r = (r.0 ≡ ok tt) × (registry sdk r.1.store gs1_code ≡ ok after)

module _ (sdk : Sdk) (law : IsLawful sdk) (accepting : IsAccepting sdk) where
  save_accepted : (m : Gs1CodeData) (w : World sdk.Store) → (save_gs1_code sdk m w).0 ≡ ok tt
  unfolding save_gs1_code
  save_accepted m w =
      let (b, marshals) = accepting.gs1_code_marshals m in
      let (x, xs, replied) = accepting.sets (address_of sdk m.gs1_code) b w.store in ground arith

  pub save-Leaves :
      (m : Gs1CodeData) (w : World sdk.Store) (found : Option Gs1CodeData)
      → m.gs1_code ≢ []
      → registry sdk w.store m.gs1_code ≡ ok found
      → Leaves sdk m.gs1_code (some (wire_gs1_code m)) (save_gs1_code sdk m w)
  save-Leaves m w found nonempty was =
      let (v, readable) = registry-readable sdk w.store m.gs1_code found was in
      (
        save_accepted m w,
        elim (save_gs1_code-cases sdk law m w) [
          | inl s ↦ Saved-registry sdk law m w s v readable (law.gs1_code_marshals_some m nonempty)
          | inr (e, failed) ↦ absurd (ground (arith, save_accepted m w))
        ],
      )

  -- With a lawful validator that accepts what it is sent, the super user registers an unknown code
  -- that is not empty: it is in the registry as requested, inactive.
  pub register_succeeds :
      (request : Option RegisterGs1CodeTransactionData) (requestor : GoString) (w : World sdk.Store)
      → requestor ≡ w.sudo_address
      → get_gs1_code_of_register_gs1_code request ≢ []
      → registry sdk w.store (get_gs1_code_of_register_gs1_code request) ≡ ok none
      → Leaves sdk
          (get_gs1_code_of_register_gs1_code request)
          (some (new_gs1_code request))
          (apply_register_gs1_code sdk request requestor w)
  unfolding apply_register_gs1_code
  register_succeeds request requestor w sudo nonempty unknown =
      rw
        (
          if_permitted_sudo sdk [] requestor (text "applyRegiserGS1Code : Authentication failed")
              permission_su_manager
              (load_gs1_code sdk (get_gs1_code_of_register_gs1_code request)
                >>= register_if_new sdk request)
              w (omega arith) sudo,
          load_gs1_code-registry sdk (get_gs1_code_of_register_gs1_code request) w,
          unknown,
        )
        (save-Leaves (new_gs1_code request) w none nonempty unknown)

  -- When the super user registers a code that is known already, the registration is refused, and
  -- the world is as it was.
  pub register_twice :
      (request : Option RegisterGs1CodeTransactionData) (requestor : GoString) (m : Gs1CodeData)
      (w : World sdk.Store)
      → requestor ≡ w.sudo_address
      → registry sdk w.store (get_gs1_code_of_register_gs1_code request) ≡ ok (some m)
      → apply_register_gs1_code sdk request requestor w
        ≡ (err (invalid_transaction (text "GS1 Code already exists")), w)
  unfolding apply_register_gs1_code
  register_twice request requestor m w sudo known = rw (
    if_permitted_sudo sdk [] requestor (text "applyRegiserGS1Code : Authentication failed")
        permission_su_manager
        (load_gs1_code sdk (get_gs1_code_of_register_gs1_code request)
          >>= register_if_new sdk request)
        w (omega arith) sudo,
    load_gs1_code-registry sdk (get_gs1_code_of_register_gs1_code request) w,
    known,
  )

  delete-Leaves :
      (gs1_code : GoString) (m : Gs1CodeData) (w : World sdk.Store)
      → registry sdk w.store gs1_code ≡ ok (some m)
      → Leaves sdk gs1_code none (delete_gs1_code sdk gs1_code w)
  unfolding delete_gs1_code
  delete-Leaves gs1_code m w was =
      let (v, readable) = registry-readable sdk w.store gs1_code (some m) was in
      let (x, xs, replied) = accepting.deletes (address_of sdk gs1_code) w.store in
      elim (delete_gs1_code-cases sdk law gs1_code w v readable) [
        | inl done ↦ done
        | inr (e, failed) ↦ absurd (ground arith)
      ]

  -- With a lawful validator that accepts what it is sent, the super user deregisters a known code
  -- exactly if that is its owner: then the code is gone, and otherwise the call does not succeed
  -- and nothing changes.
  pub deregister_result :
      (request : Option DeregisterGs1CodeTransactionData) (requestor : GoString) (m : Gs1CodeData)
      (w : World sdk.Store)
      → requestor ≡ w.sudo_address
      → registry sdk w.store (get_gs1_code_of_deregister_gs1_code request) ≡ ok (some m)
      → ((m.owner_id ≡ requestor)
          × Leaves sdk
              (get_gs1_code_of_deregister_gs1_code request)
              none
              (apply_deregister_gs1_code sdk request requestor w))
        ⊎ ((m.owner_id ≢ requestor)
            × ((apply_deregister_gs1_code sdk request requestor w).0 ≢ ok tt)
            × ((apply_deregister_gs1_code sdk request requestor w).1 ≡ w))
  unfolding apply_deregister_gs1_code
  deregister_result request requestor m w sudo known =
      let c = get_gs1_code_of_deregister_gs1_code request in
      rw
        (
          if_permitted_sudo sdk [] requestor (text "applyDeregiserGS1Code : Authentication failed")
              permission_su_manager
              (load_gs1_code sdk c
                >>= (λ found. existing sdk found >>= deregister_owned sdk request requestor))
              w (omega arith) sudo,
          load_gs1_code-registry sdk c w,
          known,
        )
        (ground (arith, delete-Leaves c m w known))

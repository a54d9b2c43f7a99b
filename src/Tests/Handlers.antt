-- ===== src/Tests/Handlers.antt =====
-- The theorems on the handlers at the ledger of Tests/Town.antt.
use ons_sawtooth.Base.Logic.{
  ℕ, ℕ_discrete, ◌≤◌, ◌≡◌, ◌≢◌, ◌↔◌, refl, inr, [], ◌∷◌, ◌++◌, Option, none, some, true, arith,
  subst, ap, sym, ◌∙◌,
}
use ons_sawtooth.Base.Logic.{List, false}
use ons_sawtooth.Base.Text.{Bytes, GoString, text, GoString-discrete}
use ons_sawtooth.Base.Slice.{elements, length}
use ons_sawtooth.Base.Dict.{lookup}
use ons_sawtooth.Base.Outcome.{ok, panic, success}
use ons_sawtooth.Proto.State.{gs1code_inactive, record_inactive}
use ons_sawtooth.Proto.Payload.{
  RegisterGs1CodeTransactionData, DeregisterGs1CodeTransactionData, AddRecordTransactionData,
  RemoveRecordTransactionData, ChangeGs1CodeStateTransactionData, ChangeRecordStateTransactionData,
  SendOnsTransactionPayload,
}
use ons_sawtooth.Sdk.Laws.{wire_gs1_code}
use ons_sawtooth.Manager.Cache.{permission_su_manager, permission_manager, check_permission}
use ons_sawtooth.Handler.Permission.{get_permission_level}
use ons_sawtooth.Handler.Gate.{MayEdit, gate_exact, gate_without_code}
use ons_sawtooth.Handler.Codes.{
  apply_register_gs1_code, apply_deregister_gs1_code, apply_change_gs1_code_state,
}
use ons_sawtooth.Handler.Records.{apply_add_record, apply_remove_record, apply_change_record_state}
use ons_sawtooth.Handler.Apply.{apply, unpack_payload}
use ons_sawtooth.Handler.Authority.{Refused, MaySend, edited_code, apply-Refused}
use ons_sawtooth.Handler.Transitions.{
  Registers, Deregisters, SetsState, Adds, Removes, SetsRecordState,
}
use ons_sawtooth.Handler.Effect.{Effect, IsNamed}
use ons_sawtooth.Handler.CodeEffects.{
  apply_register_gs1_code-Effect, apply_deregister_gs1_code-Effect,
  apply_change_gs1_code_state-Effect,
}
use ons_sawtooth.Handler.RecordEffects.{
  apply_add_record-Effect, apply_remove_record-Effect, apply_change_record_state-Effect,
}
use ons_sawtooth.Handler.Success.{Leaves}
use ons_sawtooth.Handler.RecordResults.{remove_record-panic_iff, remove_record_succeeds}
use ons_sawtooth.Client.Requests.{sent_registration, sent_record}
use ons_sawtooth.Manager.Storage.{set_sudo_address}
use ons_sawtooth.Handler.Sudo.{processor_after, sudo_stays}
use ons_sawtooth.Tests.Ledger.{ledger, ledger-IsLawful, ledger-IsAccepting}
use ons_sawtooth.Tests.Town.{
  code, milk, town, town_store, record_of, code_registered, other_unregistered,
}

abbrev root : GoString
root = text "root"

abbrev ann : GoString
ann = text "ann"

abbrev bob : GoString
bob = text "bob"

abbrev eve : GoString
eve = text "eve"

eve_stranger : ¬ MayEdit ledger code eve town
unfolding lookup GoString-discrete ℕ_discrete
eve_stranger = λ may. ground arith

success_parts : {A : Type 0} {x y : A} → success x ≡ success y → x ≡ y
success_parts e = cc

found_parts : {A : Type 0} {x y : A} → ok (some x) ≡ ok (some y) → x ≡ y
found_parts e = cc

eve_may_not :
    (p : SendOnsTransactionPayload)
    → unpack_payload ledger (7 ∷ code) ≡ success p
    → ¬ MaySend ledger (edited_code ledger p.transaction_type p) eve town
unfolding unpack_payload
eve_may_not p unpacked =
    subst (λ q. ¬ MaySend ledger (edited_code ledger q.transaction_type q) eve town)
      (success_parts unpacked)
      (λ may.
        eve_stranger (subst (MayEdit ledger code eve) (gate_exact ledger code eve town refl).1 may))

apply-Refused_example : Refused ledger town (apply ledger eve (7 ∷ code) town)
apply-Refused_example = apply-Refused ledger eve (7 ∷ code) town eve_may_not

gate_exact_example :
    ((get_permission_level ledger code bob permission_manager town).0 ≡ ok true
      ↔ MayEdit ledger code bob town)
    × ((get_permission_level ledger code bob permission_manager town).1 ≡ town)
gate_exact_example = gate_exact ledger code bob town refl

root_passes : (get_permission_level ledger [] root permission_su_manager town).0 ≡ ok true
unfolding get_permission_level check_permission GoString-discrete ℕ_discrete
root_passes = refl

gate_without_code_example : root ≡ town.sudo_address
gate_without_code_example =
    gate_without_code ledger root permission_su_manager town (omega arith) root_passes

-- Requests of the tests.
abbrev new_code : Option RegisterGs1CodeTransactionData
new_code = some (record { gs1_code = text "999"; owner_id = root })

abbrev end_of_code : Option DeregisterGs1CodeTransactionData
end_of_code = some (record { gs1_code = code })

abbrev stop : Option ChangeGs1CodeStateTransactionData
stop = some (record { gs1_code = code; state = gs1code_inactive })

abbrev added : Option AddRecordTransactionData
added = some (record {
  gs1_code = code;
  record_data = some (record { flags = 3; service = text "new"; regexp = [] });
})

abbrev removed : ℕ → Option RemoveRecordTransactionData
removed index = some (record { gs1_code = code; index = index })

abbrev stopped_record : Option ChangeRecordStateTransactionData
stopped_record = some (record { gs1_code = code; index = 1; state = record_inactive })

nonempty : code ≢ []
nonempty e = cc

named : IsNamed ledger town_store code
named m known = ap (λ d. d.gs1_code) (found_parts (sym known ∙ code_registered))

bob_edits : MayEdit ledger code bob town
unfolding lookup GoString-discrete ℕ_discrete
bob_edits = inr (nonempty, inr refl)

apply_register_gs1_code-Effect_example :
    Effect ledger
      (Registers (text "999") root)
      (text "999")
      town_store
      (apply_register_gs1_code ledger new_code root town)
apply_register_gs1_code-Effect_example =
    apply_register_gs1_code-Effect ledger ledger-IsLawful root town new_code (λ e. cc)

apply_deregister_gs1_code-Effect_example :
    Effect ledger
      (Deregisters root)
      code
      town_store
      (apply_deregister_gs1_code ledger end_of_code root town)
apply_deregister_gs1_code-Effect_example =
    apply_deregister_gs1_code-Effect ledger ledger-IsLawful root town end_of_code

apply_change_gs1_code_state-Effect_example :
    Effect ledger
      (SetsState gs1code_inactive)
      code
      town_store
      (apply_change_gs1_code_state ledger stop root town)
apply_change_gs1_code_state-Effect_example =
    apply_change_gs1_code_state-Effect ledger ledger-IsLawful root town stop nonempty named

apply_add_record-Effect_example :
    Effect ledger
      (Adds 3 (text "new") [] bob)
      code
      town_store
      (apply_add_record ledger added bob town)
apply_add_record-Effect_example =
    apply_add_record-Effect ledger ledger-IsLawful bob town added nonempty named

apply_remove_record-Effect_example :
    Effect ledger (Removes 1 bob) code town_store (apply_remove_record ledger (removed 1) bob town)
apply_remove_record-Effect_example =
    apply_remove_record-Effect ledger ledger-IsLawful bob town (removed 1) nonempty named

apply_change_record_state-Effect_example :
    Effect ledger
      (SetsRecordState 1 record_inactive)
      code
      town_store
      (apply_change_record_state ledger stopped_record root town)
apply_change_record_state-Effect_example =
    apply_change_record_state-Effect ledger ledger-IsLawful root town stopped_record nonempty named

remove_record-panic_iff_example :
    ((apply_remove_record ledger (removed 2) bob town).0 ≡ panic)
    ↔ (length (elements milk.records) ≤ 2)
remove_record-panic_iff_example =
    remove_record-panic_iff ledger bob milk town refl (removed 2) bob_edits code_registered

remove_record_succeeds_example :
    Leaves ledger code
      (some (wire_gs1_code (record milk { records = some (record_of ann ∷ []) })))
      (apply_remove_record ledger (removed 1) bob town)
remove_record_succeeds_example =
    remove_record_succeeds ledger ledger-IsLawful ledger-IsAccepting bob milk town refl (removed 1)
      (record_of bob) bob_edits code_registered refl nonempty (omega arith) refl refl

sent_registration_example :
    Leaves ledger
      (text "999")
      (some (record {
        gs1_code = text "999";
        owner_id = root;
        records = none;
        state = gs1code_inactive;
      }))
      (apply ledger root (0 ∷ text "999") town)
sent_registration_example =
    sent_registration ledger ledger-IsLawful ledger-IsAccepting (text "999") root root
      (0 ∷ text "999") town refl refl (λ e. cc) other_unregistered

sent_record_example :
    Leaves ledger code
      (some (record milk {
        records = some (
            elements milk.records
            ++ (record {
              flags = 7;
              service = [];
              regexp = [];
              state = record_inactive;
              provider = bob;
            }
                ∷ []));
      }))
      (apply ledger bob (7 ∷ code) town)
sent_record_example =
    sent_record ledger ledger-IsLawful ledger-IsAccepting 7 [] [] bob milk (7 ∷ code) town refl refl
      bob_edits code_registered nonempty

-- Eve's record, and a registration by the super user.
abbrev two_transactions : List (GoString × Bytes)
two_transactions = (eve, 7 ∷ code) ∷ (root, 0 ∷ text "999") ∷ []

sudo_stays_example :
    ((processor_after ledger root town_store two_transactions).sudo_address ≡ root)
    × (set_sudo_address ledger eve (processor_after ledger root town_store two_transactions)
        ≡ (ok false, processor_after ledger root town_store two_transactions))
sudo_stays_example = sudo_stays ledger root eve town_store two_transactions (λ e. ground arith)

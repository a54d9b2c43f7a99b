-- ===== src/Manager/Put.antt =====
-- `AddGS1CodeManager` on the list of managers, by look-up.
use ons_sawtooth.Base.Logic.{
  ◌≡◌, refl, List, [], ◌∷◌, Option, none, some, Option-cases, inl, inr, if◌then◌else◌, arith,
}
use ons_sawtooth.Base.Text.{GoString, ◌==◌}
use ons_sawtooth.Base.Slice.{Slice, elements}
use ons_sawtooth.Proto.State.{OnsGs1CodeManager}
use ons_sawtooth.Manager.Edit.{update_manager, put_manager}
use ons_sawtooth.Manager.Find.{find, IsUnique, find-append, append-IsUnique}

abbrev pub code_key : OnsGs1CodeManager → GoString
code_key m = m.gs1_code

abbrev pub address_key : OnsGs1CodeManager → GoString
address_key m = m.address

abbrev pub address_found : Option OnsGs1CodeManager → Option GoString
address_found none = none
address_found (some m) = some m.address

-- The address that a list gives as the manager of a code.
abbrev pub managed_by : GoString → List OnsGs1CodeManager → Option GoString
managed_by gs1_code ms = address_found (find code_key gs1_code ms)

update_manager-none :
    (c a : GoString) (ms : List OnsGs1CodeManager)
    → update_manager c a ms ≡ none
    → find code_key c ms ≡ none
unfolding update_manager find
update_manager-none c a [] e = refl
update_manager-none c a (m ∷ ms) e = ground (arith, update_manager-none c a ms)

update_manager-managed_by :
    (j c a : GoString) (ms ms' : List OnsGs1CodeManager)
    → update_manager c a ms ≡ some ms'
    → managed_by j ms' ≡ (if c == j then some a else managed_by j ms)
unfolding update_manager find
update_manager-managed_by j c a [] ms' e = cc
update_manager-managed_by j c a (m ∷ ms) ms' e = elim (Option-cases (update_manager c a ms)) [
  | inl e₁ ↦ ground arith
  | inr (rest, e₁) ↦ ground (arith, update_manager-managed_by j c a ms rest e₁)
]

update_manager-find-none :
    (j c a : GoString) (ms ms' : List OnsGs1CodeManager)
    → update_manager c a ms ≡ some ms'
    → find code_key j ms ≡ none
    → find code_key j ms' ≡ none
unfolding update_manager find
update_manager-find-none j c a [] ms' e n = cc
update_manager-find-none j c a (m ∷ ms) ms' e n = elim (Option-cases (update_manager c a ms)) [
  | inl e₁ ↦ ground arith
  | inr (rest, e₁) ↦ ground (arith, update_manager-find-none j c a ms rest e₁)
]

update_manager-IsUnique :
    (c a : GoString) (ms ms' : List OnsGs1CodeManager)
    → update_manager c a ms ≡ some ms'
    → IsUnique code_key ms
    → IsUnique code_key ms'
unfolding update_manager
update_manager-IsUnique c a [] ms' e u = cc
update_manager-IsUnique c a (m ∷ ms) ms' e u = elim (Option-cases (update_manager c a ms)) [
  | inl e₁ ↦ ground arith
  | inr (rest, e₁) ↦ ground (
    arith,
    update_manager-IsUnique c a ms rest e₁,
    update_manager-find-none m.gs1_code c a ms rest e₁,
  )
]

-- Afterwards the code has the address, and every other code what it had.
pub managed_by-put_manager :
    (j c a : GoString) (s : Slice OnsGs1CodeManager)
    → managed_by j (elements (put_manager c a s))
      ≡ (if c == j then some a else managed_by j (elements s))
unfolding put_manager
managed_by-put_manager j c a none = unfold find in ground arith
managed_by-put_manager j c a (some ms) = elim (Option-cases (update_manager c a ms)) [
  | inl e ↦ ground (
    arith,
    update_manager-none c a ms e,
    find-append code_key j ms (record { gs1_code = c; address = a }),
  )
  | inr (ms', e) ↦ ground (arith, update_manager-managed_by j c a ms ms' e)
]

pub put_manager-IsUnique :
    (c a : GoString) (s : Slice OnsGs1CodeManager)
    → IsUnique code_key (elements s)
    → IsUnique code_key (elements (put_manager c a s))
unfolding put_manager
put_manager-IsUnique c a none u = unfold find in (refl, tt)
put_manager-IsUnique c a (some ms) u = elim (Option-cases (update_manager c a ms)) [
  | inl e ↦ ground (
    arith,
    update_manager-none c a ms e,
    append-IsUnique code_key ms (record { gs1_code = c; address = a }),
  )
  | inr (ms', e) ↦ ground (arith, update_manager-IsUnique c a ms ms' e)
]

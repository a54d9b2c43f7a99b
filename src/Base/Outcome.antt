-- ===== src/Base/Outcome.antt =====
-- What a Go call does to a state: it returns a value or an error, panics at run time, or waits on a
-- channel and never returns. What was written before stays written in every case.
use ons_sawtooth.Base.Logic.{Bool, true, false, ◌≡◌, refl, ◌⊎◌, inl, inr}
use ons_sawtooth.Base.Text.{GoString}

-- The error values: the two kinds of the processor package, and any other.
pub data Error : Type 0 where
  invalid_transaction internal other_error : GoString → Error

-- What a library call returns.
pub data Reply (A : Type 0) : Type 0 where
  success : A → Reply A
  failure : Error → Reply A

pub Reply-cases :
    {A : Type 0} (r : Reply A) → ((a : A) × (r ≡ success a)) ⊎ ((e : Error) × (r ≡ failure e))
Reply-cases (success a) = inl (a, refl)
Reply-cases (failure e) = inr (e, refl)

pub data Outcome (A : Type 0) : Type 0 where
  ok : A → Outcome A
  err : Error → Outcome A
  panic hang : Outcome A

-- The call comes back, with a value or an error.
abbrev pub ComesBack : {A : Type 0} → Outcome A → Type 0
ComesBack (ok a) = Unit
ComesBack (err e) = Unit
ComesBack panic = ⊥
ComesBack hang = ⊥

abbrev pub Action : Type 0 → Type 0 → Type 0
Action S A = S → Outcome A × S

module _ {S : Type 0} where
  abbrev pub pure : {A : Type 0} → A → Action S A
  pure a s = (ok a, s)

  abbrev pub fail : {A : Type 0} → Error → Action S A
  fail e s = (err e, s)

  -- A send that nobody takes.
  abbrev pub wait_for_ever : {A : Type 0} → Action S A
  wait_for_ever s = (hang, s)

  abbrev pub crash : {A : Type 0} → Action S A
  crash s = (panic, s)

  abbrev pub resume : {A B : Type 0} → (A → Action S B) → Outcome A × S → Outcome B × S
  resume f (ok a, s) = f a s
  resume f (err e, s) = (err e, s)
  resume f (panic, s) = (panic, s)
  resume f (hang, s) = (hang, s)

  infixl 5 ◌>>=◌ ◌>>◌
  abbrev pub ◌>>=◌ : {A B : Type 0} → Action S A → (A → Action S B) → Action S B
  ◌>>=◌ m f s = resume f (m s)

  abbrev pub ◌>>◌ : {B : Type 0} → Action S (Unit {0}) → Action S B → Action S B
  m >> k = m >>= λ _. k

  abbrev pub gets : {A : Type 0} → (S → A) → Action S A
  gets f s = (ok (f s), s)

  abbrev pub modify : (S → S) → Action S (Unit {0})
  modify f s = (ok tt, f s)

  -- `if c { return e }`
  abbrev pub fail_if : Bool → Error → Action S (Unit {0})
  fail_if true e s = (err e, s)
  fail_if false e s = (ok tt, s)

  -- `if err != nil { return err }`
  abbrev pub or_return : {A : Type 0} → Reply A → Action S A
  or_return (success a) s = (ok a, s)
  or_return (failure e) s = (err e, s)

  -- The error of a call handed over as a value; a panic goes on, and a call that hangs stays.
  abbrev pub caught : {A : Type 0} → Outcome A × S → Outcome (Reply A) × S
  caught (ok a, s) = (ok (success a), s)
  caught (err e, s) = (ok (failure e), s)
  caught (panic, s) = (panic, s)
  caught (hang, s) = (hang, s)

  abbrev pub attempt : {A : Type 0} → Action S A → Action S (Reply A)
  attempt m s = caught (m s)

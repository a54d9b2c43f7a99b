-- ===== src/Start.antt =====
-- The start of the transaction processor, src/ons/main.go: the public key of the super user, from the
-- option or the key file, and the handler that is given it. The flags package and the processor of
-- the SDK are left out.
pub mod Keys
use ons_sawtooth.Base.Logic.{
  ℕ, suc, ◌⊎◌, ◌≡◌, ◌≢◌, refl, List, [], ◌∷◌, ◌++◌, Bool, true, false, Bool-cases, eqb, Option,
  none, some, if◌then◌else◌, arith, inl, inr, sym, ◌∙◌, ap,
}
use ons_sawtooth.Base.Text.{GoString, Bytes, text, ◌==◌, GoString-discrete}
use ons_sawtooth.Base.Outcome.{Error, Reply, success, failure, Outcome, ok, err, panic, hang}
use ons_sawtooth.Sdk.{Sdk}
use ons_sawtooth.World.{World, initial_world}
use ons_sawtooth.Manager.Storage.{set_sudo_address}

-- `bytes[:len(bytes)-1]` if the last byte is a newline; of no bytes there is no last one.
abbrev pub last_byte : Bytes → Option ℕ
last_byte [] = none
last_byte (b ∷ []) = some b
last_byte (b ∷ c ∷ bs) = last_byte (c ∷ bs)

abbrev pub without_last : Bytes → Bytes
without_last [] = []
without_last (b ∷ []) = []
without_last (b ∷ c ∷ bs) = b ∷ without_last (c ∷ bs)

unfoldable pub trim_newline : Bytes → Outcome Bytes
trim_newline bytes = elim (last_byte bytes) [
  | none ↦ panic
  | some b ↦ ok (if eqb b 10 then without_last bytes else bytes)
]

-- The program exits with a code, panics, or starts a processor with the super user set.
pub data Started (Store : Type 0) : Type 0 where
  exited : ℕ → Started Store
  panicked : Started Store
  started : World Store → Started Store

module _ (sdk : Sdk) where
  -- `local_public_key`, for the option and what the key file gives.
  unfoldable pub local_public_key : GoString → Reply Bytes → Started sdk.Store ⊎ GoString
  local_public_key [] (failure e) = inl (exited 2)
  local_public_key [] (success bytes) = elim (trim_newline bytes) [
    | ok key ↦ inr key
    | err e ↦ inl panicked
    | panic ↦ inl panicked
    | hang ↦ inl panicked
  ]
  local_public_key (c ∷ cs) file = inr (c ∷ cs)

  abbrev pub with_sudo : GoString → World sdk.Store → Started sdk.Store
  with_sudo key w =
      let (r, w') = set_sudo_address sdk key w in
      elim r [
        | ok set ↦ (if set then started w' else exited 2)
        | err e ↦ panicked
        | panic ↦ panicked
        | hang ↦ panicked
      ]

  unfoldable pub start : GoString → Reply Bytes → sdk.Store → Started sdk.Store
  unfolding local_public_key
  start option_key file s = elim (local_public_key option_key file) [
    | inl ended ↦ ended
    | inr key ↦ with_sudo key (initial_world s)
  ]

-- ===== src/Start/Keys.antt =====
-- The key file of a processor's start, and the super user that comes of it.
use ons_sawtooth.Base.Logic.{ℕ, ◌≡◌, ◌≢◌, refl, [], ◌∷◌, ◌++◌, some, arith, ap, ℕ_discrete}
use ons_sawtooth.Base.Text.{GoString, Bytes, GoString-discrete}
use ons_sawtooth.Base.Outcome.{Reply, success, ok}
use ons_sawtooth.Sdk.{Sdk}
use ons_sawtooth.World.{World, initial_world}
use ons_sawtooth.Manager.Storage.{set_sudo_address}
use ons_sawtooth.Start.{
  last_byte, without_last, trim_newline, local_public_key, start, started, panicked,
}

last_byte-append : (key : Bytes) (b : ℕ) → last_byte (key ++ (b ∷ [])) ≡ some b
last_byte-append [] b = refl
last_byte-append (x ∷ []) b = refl
last_byte-append (x ∷ y ∷ ys) b = last_byte-append (y ∷ ys) b

without_last-append : (key : Bytes) (b : ℕ) → without_last (key ++ (b ∷ [])) ≡ key
without_last-append [] b = refl
without_last-append (x ∷ []) b = refl
without_last-append (x ∷ y ∷ ys) b = ap (λ r. x ∷ r) (without_last-append (y ∷ ys) b)

trim_newline-newline : (key : Bytes) → trim_newline (key ++ (10 ∷ [])) ≡ ok key
unfolding trim_newline
trim_newline-newline key = ground (arith, last_byte-append key 10, without_last-append key 10)

trim_newline-none :
    (key : Bytes) (b : ℕ) → last_byte key ≡ some b → b ≢ 10 → trim_newline key ≡ ok key
unfolding trim_newline
trim_newline-none key b e other = ground arith

module _ (sdk : Sdk) where
  abbrev pub with_super_user : GoString → sdk.Store → World sdk.Store
  with_super_user key s = record (initial_world s) { sudo_address = key }

  start_trimmed :
      (bytes key : Bytes) (s : sdk.Store)
      → trim_newline bytes ≡ ok key
      → start sdk [] (success bytes) s ≡ started (with_super_user key s)
  unfolding start local_public_key set_sudo_address initial_world GoString-discrete ℕ_discrete
  start_trimmed bytes key s e = rw (e, local_public_key, start) refl

  -- Without a key as an option, a key file that ends in no newline, the same file with a newline, and
  -- the key itself as an option, if it is not empty, start the same processor: its super user is the
  -- key, and nothing else differs from the state at a start. An empty key file panics.
  pub start_with_key :
      (key : Bytes) (b : ℕ) (file : Reply Bytes) (s : sdk.Store)
      → last_byte key ≡ some b
      → b ≢ 10
      → (start sdk [] (success key) s ≡ started (with_super_user key s))
        × (start sdk [] (success (key ++ (10 ∷ []))) s ≡ started (with_super_user key s))
        × (start sdk key file s ≡ started (with_super_user key s))
        × (start sdk [] (success []) s ≡ panicked)
  unfolding start local_public_key set_sudo_address initial_world GoString-discrete ℕ_discrete
      trim_newline
  start_with_key [] b file s e other = absurd (ground arith)
  start_with_key (c ∷ cs) b file s e other = (
    start_trimmed (c ∷ cs) (c ∷ cs) s (trim_newline-none (c ∷ cs) b e other),
    start_trimmed (c ∷ (cs ++ (10 ∷ []))) (c ∷ cs) s (trim_newline-newline (c ∷ cs)),
    refl,
    refl,
  )

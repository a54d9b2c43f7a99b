-- ===== src/Manager/Find.antt =====
-- Lists of managers as finite maps by a key.
use ons_sawtooth.Base.Logic.{
  ◌≡◌, refl, List, [], ◌∷◌, ◌++◌, Bool, Option, none, some, if◌then◌else◌, arith,
}
use ons_sawtooth.Base.Text.{GoString, ◌==◌}
use ons_sawtooth.Proto.State.{OnsGs1CodeManager}
use ons_sawtooth.Manager.Loop.{without}
use ons_sawtooth.Manager.Removal.{NoHit, AtMostOnce}

module _ (key : OnsGs1CodeManager → GoString) where
  -- The first element of a key.
  unfoldable pub find : GoString → List OnsGs1CodeManager → Option OnsGs1CodeManager
  find k [] = none
  find k (m ∷ ms) = if key m == k then some m else find k ms

  -- No key occurs twice.
  abbrev pub IsUnique : List OnsGs1CodeManager → Type 0
  IsUnique [] = Unit
  IsUnique (m ∷ ms) = (find (key m) ms ≡ none) × IsUnique ms

  abbrev pub has_key : GoString → OnsGs1CodeManager → Bool
  has_key k m = key m == k

  find-NoHit :
      (k : GoString) (ms : List OnsGs1CodeManager) → find k ms ≡ none → NoHit (has_key k) ms
  unfolding find
  find-NoHit k [] e = tt
  find-NoHit k (m ∷ ms) e = ground (arith, find-NoHit k ms)

  pub IsUnique-AtMostOnce :
      (k : GoString) (ms : List OnsGs1CodeManager) → IsUnique ms → AtMostOnce (has_key k) ms
  IsUnique-AtMostOnce k [] u = tt
  IsUnique-AtMostOnce k (m ∷ ms) u =
      (λ e. find-NoHit k ms (ground arith), IsUnique-AtMostOnce k ms u.1)

  pub find-without :
      (j k : GoString) (ms : List OnsGs1CodeManager)
      → find j (without (has_key k) ms) ≡ (if k == j then none else find j ms)
  unfolding find without
  find-without j k [] = ground arith
  find-without j k (m ∷ ms) = ground (arith, find-without j k ms)

  pub without-IsUnique :
      (k : GoString) (ms : List OnsGs1CodeManager) → IsUnique ms → IsUnique (without (has_key k) ms)
  unfolding without
  without-IsUnique k [] u = tt
  without-IsUnique k (m ∷ ms) u =
      ground (arith, without-IsUnique k ms u.1, find-without (key m) k ms)

  pub find-append :
      (j : GoString) (ms : List OnsGs1CodeManager) (m : OnsGs1CodeManager)
      → find (key m) ms ≡ none
      → find j (ms ++ (m ∷ [])) ≡ (if key m == j then some m else find j ms)
  unfolding find
  find-append j [] m e = refl
  find-append j (x ∷ ms) m e = ground (arith, find-append j ms m)

  pub append-IsUnique :
      (ms : List OnsGs1CodeManager) (m : OnsGs1CodeManager)
      → find (key m) ms ≡ none
      → IsUnique ms
      → IsUnique (ms ++ (m ∷ []))
  unfolding find
  append-IsUnique [] m e u = (refl, tt)
  append-IsUnique (x ∷ ms) m e u = ground (arith, append-IsUnique ms m, find-append (key x) ms m)

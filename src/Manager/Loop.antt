-- ===== src/Manager/Loop.antt =====
-- The loop `for idx, x := range s { if hit(x) { s = append(s[0:idx], s[idx+1:]...) } }`. `range`
-- reads the array of the slice as it was before the loop, at each index below its length then;
-- `append` moves the tail down in that same array; the slice itself gets shorter.
use ons_sawtooth.Base.Logic.{
  ℕ, zero, suc, ◌-◌, List, [], ◌∷◌, ◌++◌, Bool, true, false, none, some, ltb, if◌then◌else◌,
}
use ons_sawtooth.Base.Slice.{get_elem?, take, drop, length}
use ons_sawtooth.Base.Outcome.{Outcome, ok, panic}

module _ {A : Type 0} (hit : A → Bool) where
  abbrev pub hit_at : List A → ℕ → Bool
  hit_at array idx = elim (get_elem? array idx) [ none ↦ false | some x ↦ hit x ]

  -- The array after `append(s[0:idx], s[idx+1:]...)` for the slice of its first `len` places.
  abbrev pub moved_down : ℕ → List A → ℕ → List A
  moved_down idx array len =
      take idx array ++ (drop (suc idx) (take len array) ++ drop (len - 1) array)

  -- `s[idx+1:]` panics past the length of the slice.
  unfoldable pub range_remove : ℕ → ℕ → List A → ℕ → Outcome (List A)
  range_remove zero idx array len = ok (take len array)
  range_remove (suc rounds) idx array len = elim (hit_at array idx) [
    | false ↦ range_remove rounds (suc idx) array len
    | true ↦ elim (ltb len (suc idx)) [
      | true ↦ panic
      | false ↦ range_remove rounds (suc idx) (moved_down idx array len) (len - 1)
    ]
  ]

  abbrev pub remove_hits : List A → Outcome (List A)
  remove_hits s = range_remove (length s) 0 s (length s)

  -- The list without the elements that the loop looks for.
  unfoldable pub without : List A → List A
  without [] = []
  without (x ∷ xs) = let rest = without xs in if hit x then rest else x ∷ rest

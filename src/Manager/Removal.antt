-- ===== src/Manager/Removal.antt =====
-- The removal loop of ons_manager.go, compared with a filter.
use Prim.Native.Nat.add
use native.Mathlib.Nat.{suc-add, add-suc, add-zero}
use mathlib.Core.List.{append_assoc}
use ons_sawtooth.Base.Logic.{
  ℕ, zero, suc, ◌+◌, ◌-◌, ◌≤◌, ◌<◌, ◌≡◌, refl, ap, ap₂, ◌∙◌, sym, List, [], ◌∷◌, ◌++◌, Bool, true,
  false, arith, Bool-cases, inl, inr,
}
use ons_sawtooth.Base.Slice.{length, take, drop, length-append, take-append, take_all}
use ons_sawtooth.Base.Outcome.{ok}
use ons_sawtooth.Manager.Loop.{hit_at, moved_down, range_remove, remove_hits, without}

module _ {A : Type 0} (hit : A → Bool) where
  abbrev pub NoHit : List A → Type 0
  NoHit [] = Unit
  NoHit (x ∷ xs) = (hit x ≡ false) × NoHit xs

  -- At most one element is looked for.
  abbrev pub AtMostOnce : List A → Type 0
  AtMostOnce [] = Unit
  AtMostOnce (x ∷ xs) = (hit x ≡ true → NoHit xs) × AtMostOnce xs

  hit_at-NoHit : (xs : List A) (j : ℕ) → NoHit xs → hit_at hit xs j ≡ false
  hit_at-NoHit [] j h = refl
  hit_at-NoHit (x ∷ xs) zero h = h.0
  hit_at-NoHit (x ∷ xs) (suc j) h = hit_at-NoHit xs j h.1

  NoHit-append : (xs ys : List A) → NoHit xs → NoHit ys → NoHit (xs ++ ys)
  NoHit-append [] ys hx hy = hy
  NoHit-append (x ∷ xs) ys hx hy = (hx.0, NoHit-append xs ys hx.1 hy)

  NoHit-drop : (n : ℕ) (xs : List A) → NoHit xs → NoHit (drop n xs)
  NoHit-drop zero xs h = h
  NoHit-drop (suc n) [] h = tt
  NoHit-drop (suc n) (x ∷ xs) h = NoHit-drop n xs h.1

  range_remove_miss :
      (rounds idx : ℕ) (array : List A) (len : ℕ)
      → hit_at hit array idx ≡ false
      → range_remove hit (suc rounds) idx array len ≡ range_remove hit rounds (suc idx) array len
  unfolding range_remove
  range_remove_miss rounds idx array len e = rw (e, range_remove)

  range_remove_hit :
      (rounds idx : ℕ) (array : List A) (len : ℕ)
      → hit_at hit array idx ≡ true
      → suc idx ≤ len
      → range_remove hit (suc rounds) idx array len
        ≡ range_remove hit rounds (suc idx) (moved_down hit idx array len) (len - 1)
  unfolding range_remove
  range_remove_hit rounds idx array len e l = rw (e, range_remove) (ground arith)

  -- Over an array with nothing to find the loop leaves the slice alone.
  range_remove_clean :
      (rounds idx : ℕ) (array : List A) (len : ℕ)
      → NoHit array
      → range_remove hit rounds idx array len ≡ ok (take len array)
  unfolding range_remove
  range_remove_clean zero idx array len h = refl
  range_remove_clean (suc rounds) idx array len h =
      rw (range_remove_miss rounds idx array len (hit_at-NoHit array idx h))
        (range_remove_clean rounds (suc idx) array len h)

  hit_at_left :
      (xs ys : List A) (j : ℕ) → NoHit xs → j < length xs → hit_at hit (xs ++ ys) j ≡ false
  hit_at_left [] ys j h l = elim l [ ]
  hit_at_left (x ∷ xs) ys zero h l = h.0
  hit_at_left (x ∷ xs) ys (suc j) h l = hit_at_left xs ys j h.1 (omega arith)

  hit_at_middle :
      (xs : List A) (x : A) (ys : List A) → hit_at hit (xs ++ (x ∷ ys)) (length xs) ≡ hit x
  hit_at_middle [] x ys = refl
  hit_at_middle (_ ∷ xs) x ys = hit_at_middle xs x ys

  -- The rounds over a stretch with nothing to find.
  range_remove_skip :
      (p rounds idx : ℕ) (array : List A) (len : ℕ)
      → ((j : ℕ) → j < idx + p → hit_at hit array j ≡ false)
      → range_remove hit (p + rounds) idx array len ≡ range_remove hit rounds (idx + p) array len
  unfolding range_remove
  range_remove_skip zero rounds idx array len h = rw (add.zero, add-zero)
  range_remove_skip (suc p) rounds idx array len h =
      rw
        (
          suc-add,
          range_remove_miss (p + rounds) idx array len (h idx (omega arith)),
          add-suc,
          ← suc-add,
        )
        (range_remove_skip p rounds (suc idx) array len (λ j l. h j (omega arith)))

  drop_middle : (xs : List A) (x : A) (ys : List A) → drop (suc (length xs)) (xs ++ (x ∷ ys)) ≡ ys
  drop_middle [] x ys = refl
  drop_middle (_ ∷ xs) x ys = drop_middle xs x ys

  drop_left : (xs ys : List A) (n : ℕ) → drop (length xs + n) (xs ++ ys) ≡ drop n ys
  drop_left [] ys n = rw add.zero
  drop_left (x ∷ xs) ys n = rw suc-add (drop_left xs ys n)

  -- The array after the one hit.
  moved_down_middle :
      (xs : List A) (x : A) (ys : List A)
      → moved_down hit (length xs) (xs ++ (x ∷ ys)) (length (xs ++ (x ∷ ys)))
        ≡ xs ++ (ys ++ drop (length ys) (x ∷ ys))
  moved_down_middle xs x ys =
      let n = length (xs ++ (x ∷ ys)) in
      let count : n ≡ length xs + suc (length ys) = length-append xs (x ∷ ys) in
      let cut : n - 1 ≡ length xs + length ys = omega (arith, count) in
      rw (
        take-append (length xs) xs (x ∷ ys) refl,
        take_all n (xs ++ (x ∷ ys)) (omega arith),
        drop_middle xs x ys,
        cut,
        drop_left xs (x ∷ ys) (length ys),
      )

  take_two : (xs ys zs : List A) → take (length xs + length ys) (xs ++ (ys ++ zs)) ≡ xs ++ ys
  take_two xs ys zs =
      rw (← append_assoc xs ys zs)
        (take-append (length xs + length ys) (xs ++ ys) zs (length-append xs ys))

  -- The rounds after the one hit. The array keeps a copy of its last element at its end.
  after_hit :
      (xs : List A) (x : A) (ys : List A) (idx : ℕ)
      → NoHit xs
      → NoHit ys
      → range_remove hit
          (length ys)
          idx
          (xs ++ (ys ++ drop (length ys) (x ∷ ys)))
          (length xs + length ys)
        ≡ ok (xs ++ ys)
  unfolding range_remove
  after_hit xs x [] idx hx hy = ap ok (take_two xs [] (x ∷ []))
  after_hit xs x (y ∷ ys) idx hx hy =
      range_remove_clean (suc (length ys)) idx _ _
        (NoHit-append xs _ hx (NoHit-append (y ∷ ys) _ hy (NoHit-drop (length ys) (y ∷ ys) hy)))
      ∙ ap ok (take_two xs (y ∷ ys) (drop (length ys) (y ∷ ys)))

  -- One hit, at its place.
  remove_hits_middle :
      (xs : List A) (x : A) (ys : List A)
      → NoHit xs
      → hit x ≡ true
      → NoHit ys
      → remove_hits hit (xs ++ (x ∷ ys)) ≡ ok (xs ++ ys)
  remove_hits_middle xs x ys hx hit_x hy =
      let array = xs ++ (x ∷ ys) in
      let n = length array in
      let count : n ≡ length xs + suc (length ys) = length-append xs (x ∷ ys) in
      let cut : n - 1 ≡ length xs + length ys = omega (arith, count) in
      ap (λ k. range_remove hit k 0 array n) count
      ∙ range_remove_skip (length xs) (suc (length ys)) 0 array n
          (λ j l. hit_at_left xs (x ∷ ys) j hx (omega arith))
      ∙ ap (λ k. range_remove hit (suc (length ys)) k array n) (add.zero (length xs))
      ∙ range_remove_hit (length ys) (length xs) array n (hit_at_middle xs x ys ∙ hit_x)
          (omega (arith, count))
      ∙ ap₂ (λ a k. range_remove hit (length ys) (suc (length xs)) a k) (moved_down_middle xs x ys)
          cut
      ∙ after_hit xs x ys (suc (length xs)) hx hy

  without-NoHit : (xs : List A) → NoHit xs → without hit xs ≡ xs
  unfolding without
  without-NoHit [] h = refl
  without-NoHit (x ∷ xs) h = rw (h.0) (ap (λ t. x ∷ t) (without-NoHit xs h.1))

  remove_hits_from :
      (pre xs : List A)
      → NoHit pre
      → AtMostOnce xs
      → remove_hits hit (pre ++ xs) ≡ ok (pre ++ without hit xs)
  unfolding without
  remove_hits_from pre [] hp once =
      range_remove_clean (length (pre ++ [])) 0 (pre ++ []) (length (pre ++ []))
        (NoHit-append pre [] hp tt)
      ∙ ap ok (take_all (length (pre ++ [])) (pre ++ []) (omega arith))
  remove_hits_from pre (x ∷ xs) hp (once, later) = elim (Bool-cases (hit x)) [
    | inl e ↦ rw e (
        remove_hits_middle pre x xs hp e (once e)
        ∙ ap (λ t. ok (pre ++ t)) (sym (without-NoHit xs (once e))))
    | inr e ↦
        rw (e, ← append_assoc pre (x ∷ []) xs)
          (remove_hits_from (pre ++ (x ∷ [])) xs (NoHit-append pre (x ∷ []) hp (e, tt)) later
            ∙ ap ok (append_assoc pre (x ∷ []) (without hit xs)))
  ]

  -- When what is looked for occurs at most once in a list, the removal loop does not panic and
  -- removes just that.
  pub remove_hits-without : (xs : List A) → AtMostOnce xs → remove_hits hit xs ≡ ok (without hit xs)
  remove_hits-without xs once = remove_hits_from [] xs tt once

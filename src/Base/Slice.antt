-- ===== src/Base/Slice.antt =====
-- Slices: measured and cut by native numbers, and the deletion idiom of the Go code.
use Prim.Native.Nat.add
use native.Mathlib.Nat.{suc-add}
use ons_sawtooth.Base.Logic.{
  ℕ, zero, suc, ◌+◌, ◌≤◌, ◌<◌, ◌≡◌, ◌↔◌, refl, ap, List, [], ◌∷◌, ◌++◌, Option, none, some, arith,
}

-- A slice that may be nil; ranging over a nil slice sees no element.
abbrev pub Slice {ℓ} : Type ℓ → Type ℓ
Slice A = Option (List A)

module _ {ℓ} {A : Type ℓ} where
  abbrev pub elements : Slice A → List A
  elements none = []
  elements (some xs) = xs

  abbrev pub length : List A → ℕ
  length [] = 0
  length (x ∷ xs) = suc (length xs)

  abbrev pub get_elem? : List A → ℕ → Option A
  get_elem? [] i = none
  get_elem? (x ∷ xs) zero = some x
  get_elem? (x ∷ xs) (suc i) = get_elem? xs i

  abbrev pub set : List A → ℕ → A → List A
  set [] i v = []
  set (x ∷ xs) zero v = v ∷ xs
  set (x ∷ xs) (suc i) v = x ∷ set xs i v

  abbrev pub take : ℕ → List A → List A
  take zero xs = []
  take (suc n) [] = []
  take (suc n) (x ∷ xs) = x ∷ take n xs

  abbrev pub drop : ℕ → List A → List A
  drop zero xs = xs
  drop (suc n) [] = []
  drop (suc n) (x ∷ xs) = drop n xs

  pub length-append : (xs ys : List A) → length (xs ++ ys) ≡ length xs + length ys
  length-append [] ys = omega arith
  length-append (x ∷ xs) ys = omega (arith, length-append xs ys)

  pub length-take : (n : ℕ) (xs : List A) → n ≤ length xs → length (take n xs) ≡ n
  length-take zero xs h = refl
  length-take (suc n) [] h = elim h [ ]
  length-take (suc n) (x ∷ xs) h = ap suc (length-take n xs (omega arith))

  pub take-append : (n : ℕ) (xs ys : List A) → length xs ≡ n → take n (xs ++ ys) ≡ xs
  take-append zero [] ys h = refl
  take-append zero (x ∷ xs) ys h = absurd (omega arith)
  take-append (suc n) [] ys h = absurd (omega arith)
  take-append (suc n) (x ∷ xs) ys h = ap (λ t. x ∷ t) (take-append n xs ys (omega arith))

  pub take_all : (n : ℕ) (xs : List A) → length xs ≤ n → take n xs ≡ xs
  take_all zero [] h = refl
  take_all zero (x ∷ xs) h = absurd (omega arith)
  take_all (suc n) [] h = refl
  take_all (suc n) (x ∷ xs) h = ap (λ t. x ∷ t) (take_all n xs (omega arith))

  take_nil : (n : ℕ) → ◌≡◌ {A = List A} [] (take n [])
  take_nil zero = refl
  take_nil (suc n) = refl

  pub take-take-drop : (m n : ℕ) (xs : List A) → take (m + n) xs ≡ take m xs ++ take n (drop m xs)
  take-take-drop zero n xs = rw add.zero
  take-take-drop (suc m) n [] = rw suc-add (take_nil n)
  take-take-drop (suc m) n (x ∷ xs) = rw suc-add (ap (λ t. x ∷ t) (take-take-drop m n xs))

  -- A list around one of its elements.
  pub split_at :
      (xs : List A) (i : ℕ) (x : A)
      → get_elem? xs i ≡ some x
      → xs ≡ take i xs ++ (x ∷ drop (suc i) xs)
  split_at [] i x e = cc
  split_at (y ∷ ys) zero x e = ground arith
  split_at (y ∷ ys) (suc i) x e = ap (λ t. y ∷ t) (split_at ys i x e)

  pub set_split :
      (xs : List A) (i : ℕ) (x v : A)
      → get_elem? xs i ≡ some x
      → set xs i v ≡ take i xs ++ (v ∷ drop (suc i) xs)
  set_split [] i x v e = cc
  set_split (y ∷ ys) zero x v e = refl
  set_split (y ∷ ys) (suc i) x v e = ap (λ t. y ∷ t) (set_split ys i x v e)

  pub get_elem?-lt : (xs : List A) (i : ℕ) → i < length xs → (x : A) × (get_elem? xs i ≡ some x)
  get_elem?-lt [] i h = elim h [ ]
  get_elem?-lt (x ∷ xs) zero h = (x, refl)
  get_elem?-lt (x ∷ xs) (suc i) h = get_elem?-lt xs i (omega arith)

  pub get_elem?-eq-none_iff : (xs : List A) (i : ℕ) → (get_elem? xs i ≡ none) ↔ (length xs ≤ i)
  get_elem?-eq-none_iff [] i = (λ _. omega arith, λ _. refl)
  get_elem?-eq-none_iff (x ∷ xs) zero = (λ e. cc, λ h. absurd (omega arith))
  get_elem?-eq-none_iff (x ∷ xs) (suc i) = (
    λ e. omega (arith, (get_elem?-eq-none_iff xs i).0 e),
    λ h. (get_elem?-eq-none_iff xs i).1 (omega arith),
  )

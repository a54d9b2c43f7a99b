-- ===== src/Tests/Pack.antt =====
-- A simple self-delimiting encoding, from which the concrete codecs of the tests are put together.
use ons_sawtooth.Base.Logic.{ℕ, suc, zero, ◌≡◌, refl, List, [], ◌∷◌, Option, none, some}
use ons_sawtooth.Base.Text.{Bytes}

-- How a value is put before a rest of bytes, and got back from there.
pub record Pack (A : Type 0) : Type 0 where
  pub put : A → Bytes → Bytes
  pub get : Bytes → Option (A × Bytes)
  pub get-put : (a : A) (rest : Bytes) → get (put a rest) ≡ some (a, rest)

abbrev pub get_number : Bytes → Option (ℕ × Bytes)
get_number [] = none
get_number (n ∷ rest) = some (n, rest)

abbrev pub number : Pack ℕ
number = record { put = λ n rest. n ∷ rest; get = get_number; get-put = λ a rest. refl }

module _ {A B : Type 0} (p : Pack A) (q : Pack B) where
  abbrev pub put_both : A × B → Bytes → Bytes
  put_both x rest = p.put x.0 (q.put x.1 rest)

  abbrev pub get_both : Bytes → Option ((A × B) × Bytes)
  get_both bytes = elim (p.get bytes) [
    | none ↦ none
    | some x ↦ elim (q.get x.1) [ none ↦ none | some y ↦ some ((x.0, y.0), y.1) ]
  ]

  pub get_both-put_both : (x : A × B) (rest : Bytes) → get_both (put_both x rest) ≡ some (x, rest)
  get_both-put_both x rest = rw (get_both, p.get-put x.0 (q.put x.1 rest), q.get-put x.1 rest) refl

  abbrev pub both : Pack (A × B)
  both = record { put = put_both; get = get_both; get-put = get_both-put_both }

module _ {A : Type 0} (p : Pack A) where
  unfoldable pub put_all : List A → Bytes → Bytes
  put_all [] rest = rest
  put_all (x ∷ xs) rest = p.put x (put_all xs rest)

  unfoldable pub get_all : ℕ → Bytes → Option (List A × Bytes)
  get_all zero bytes = some ([], bytes)
  get_all (suc n) bytes = elim (p.get bytes) [
    | none ↦ none
    | some x ↦ elim (get_all n x.1) [ none ↦ none | some y ↦ some (x.0 ∷ y.0, y.1) ]
  ]

  unfoldable pub count : List A → ℕ
  count [] = 0
  count (x ∷ xs) = suc (count xs)

  pub get_all-put_all :
      (xs : List A) (rest : Bytes) → get_all (count xs) (put_all xs rest) ≡ some (xs, rest)
  unfolding get_all put_all count
  get_all-put_all [] rest = refl
  get_all-put_all (x ∷ xs) rest = rw (p.get-put x (put_all xs rest), get_all-put_all xs rest) refl

  abbrev pub get_counted : Bytes → Option (List A × Bytes)
  get_counted [] = none
  get_counted (n ∷ bytes) = get_all n bytes

  abbrev pub many : Pack (List A)
  many = record {
    put = λ xs rest. count xs ∷ put_all xs rest;
    get = get_counted;
    get-put = get_all-put_all;
  }

module _ {A B : Type 0} (p : Pack A) (of : B → A) (back : A → B) where
  abbrev pub get_back : Bytes → Option (B × Bytes)
  get_back bytes = elim (p.get bytes) [ none ↦ none | some x ↦ some (back x.0, x.1) ]

  -- A type that is packed as another.
  abbrev pub packed_as : ((b : B) → back (of b) ≡ b) → Pack B
  packed_as back-of = record {
    put = λ b. p.put (of b);
    get = get_back;
    get-put = λ b rest. rw (get_back, p.get-put (of b) rest, back-of b) refl;
  }

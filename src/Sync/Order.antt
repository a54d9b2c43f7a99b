-- ===== src/Sync/Order.antt =====
-- The reference for many items: what the rows are after them, in one order and in another.
use mathlib.Core.List.{Permᴰ}
use ons_sawtooth.Base.Logic.{
  ◌≡◌, ◌≢◌, refl, sym, ap, subst, ◌∙◌, Bool-cases, inl, inr, Option, none, some, arith, List, [],
  ◌∷◌,
}
use ons_sawtooth.Sync.Database.{Document, table_of, key_of, Rows, is_at, SameRows}
use ons_sawtooth.Sync.Newest.{
  Item, document_of, num_of, newest, with_newest, is_at-eq, num_of-document,
}

unfoldable pub all_newest : List Item → Rows → Rows
all_newest [] f = f
all_newest (item ∷ items) f = all_newest items (with_newest item f)

-- Two items for one row are of different blocks.
abbrev pub AreApart : Item → Item → Type 0
AreApart x y =
    table_of (document_of x) ≡ table_of (document_of y)
    → key_of (document_of x) ≡ key_of (document_of y)
    → num_of x ≢ num_of y

abbrev pub IsApart : Item → List Item → Type 0
IsApart x [] = Unit
IsApart x (y ∷ ys) = AreApart x y × IsApart x ys

abbrev pub AllApart : List Item → Type 0
AllApart [] = Unit
AllApart (x ∷ xs) = IsApart x xs × AllApart xs

AreApart-sym : (x y : Item) → AreApart x y → AreApart y x
AreApart-sym x y h t k e = h (sym t) (sym k) (sym e)

-- In another order they are apart too.
IsApart-perm : (x : Item) (ys zs : List Item) → Permᴰ ys zs → IsApart x ys → IsApart x zs
IsApart-perm x _ _ Permᴰ.nil h = tt
IsApart-perm x _ _ (Permᴰ.cons e p) h = (subst (AreApart x) e h.0, IsApart-perm x _ _ p h.1)
IsApart-perm x _ _ (Permᴰ.swap e f) h =
    (subst (AreApart x) f h.1.0, (subst (AreApart x) e h.0, h.1.1))
IsApart-perm x _ _ (Permᴰ.trans {l₂ = ys} p q) h = IsApart-perm x _ _ q (IsApart-perm x _ _ p h)

newest-newest :
    (o : Option Document) (x y : Item)
    → num_of x ≢ num_of y
    → newest (newest o x) y ≡ newest (newest o y) x
newest-newest none x y h = ground (arith, num_of-document x, num_of-document y)
newest-newest (some d) x y h = ground (arith, num_of-document x, num_of-document y)

with_newest-swap :
    (x y : Item) (f : Rows)
    → AreApart x y
    → SameRows (with_newest y (with_newest x f)) (with_newest x (with_newest y f))
with_newest-swap x y f h table key = elim (Bool-cases (is_at (document_of x) table key)) [
  | inr no_x ↦ ground (arith)
  | inl at_x ↦ elim (Bool-cases (is_at (document_of y) table key)) [
    | inr no_y ↦ ground arith
    | inl at_y ↦
        let (tx, kx) = is_at-eq (document_of x) table key at_x in
        let (ty, ky) = is_at-eq (document_of y) table key at_y in
        rw (at_x, at_y) (newest-newest (f table key) x y (h (tx ∙ sym ty) (kx ∙ sym ky)))
  ]
]

with_newest-same :
    (x : Item) (f g : Rows) → SameRows f g → SameRows (with_newest x f) (with_newest x g)
with_newest-same x f g h table key = rw (h table key)

pub all_newest-same :
    (xs : List Item) (f g : Rows) → SameRows f g → SameRows (all_newest xs f) (all_newest xs g)
unfolding all_newest
all_newest-same [] f g h = h
all_newest-same (x ∷ xs) f g h = all_newest-same xs _ _ (with_newest-same x f g h)

AllApart-perm : (xs ys : List Item) → Permᴰ xs ys → AllApart xs → AllApart ys
AllApart-perm _ _ Permᴰ.nil h = tt
AllApart-perm _ _ (Permᴰ.cons {l₁} {l₂} e p) h =
    (subst (λ b. IsApart b l₂) e (IsApart-perm _ l₁ l₂ p h.0), AllApart-perm l₁ l₂ p h.1)
AllApart-perm _ _ (Permᴰ.swap {a} {b} {l} e f) h =
    let apart : AreApart b a = AreApart-sym a b h.0.0 in
    (
      (subst (AreApart _) e (subst (λ c. AreApart c a) f apart), subst (λ c. IsApart c l) f h.1.0),
      (subst (λ c. IsApart c l) e h.0.1, h.1.1),
    )
AllApart-perm _ _ (Permᴰ.trans p q) h = AllApart-perm _ _ q (AllApart-perm _ _ p h)

-- Items that are apart leave the same rows in any order.
pub all_newest-perm :
    (xs ys : List Item) (f : Rows)
    → Permᴰ xs ys
    → AllApart xs
    → SameRows (all_newest xs f) (all_newest ys f)
unfolding all_newest
all_newest-perm _ _ f Permᴰ.nil h table key = refl
all_newest-perm _ _ f (Permᴰ.cons {a} {b} {l₁} {l₂} e p) h table key =
    all_newest-perm l₁ l₂ (with_newest a f) p h.1 table key
    ∙ ap (λ c. all_newest l₂ (with_newest c f) table key) e
all_newest-perm _ _ f (Permᴰ.swap {a} {b} {a'} {b'} {l} e g) h table key =
    all_newest-same l _ _ (with_newest-swap a b f h.0.0) table key
    ∙ ap (λ c. all_newest l (with_newest a (with_newest c f)) table key) g
    ∙ ap (λ c. all_newest l (with_newest c (with_newest a' f)) table key) e
all_newest-perm _ _ f (Permᴰ.trans {l₁} {l₂} {l₃} p q) h table key =
    all_newest-perm l₁ l₂ f p h table key
    ∙ all_newest-perm l₂ l₃ f q (AllApart-perm l₁ l₂ p h) table key

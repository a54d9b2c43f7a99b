-- ===== src/Base/Flat.antt =====
-- Lists put together from lists, and their permutations.
use mathlib.Core.List.Permᴰ
use mathlib.Core.List.{Permᴰ, append_assoc}
use ons_sawtooth.Base.Logic.{◌≡◌, refl, sym, subst, ap, ◌∙◌, List, [], ◌∷◌, ◌++◌}

module _ {A B : Type 0} (f : A → List B) where
  abbrev pub flat : List A → List B
  flat [] = []
  flat (x ∷ xs) = f x ++ flat xs

  pub flat-append : (xs ys : List A) → flat (xs ++ ys) ≡ flat xs ++ flat ys
  flat-append [] ys = refl
  flat-append (x ∷ xs) ys =
      ap (λ r. f x ++ r) (flat-append xs ys) ∙ sym (append_assoc (f x) (flat xs) (flat ys))

past_each_other : {B : Type 0} (xs ys zs : List B) → Permᴰ (xs ++ (ys ++ zs)) (ys ++ (xs ++ zs))
past_each_other [] ys zs = Permᴰ.refl (ys ++ zs)
past_each_other (x ∷ xs) ys zs =
    Permᴰ.trans (Permᴰ.cons refl (past_each_other xs ys zs))
      (Permᴰ.symm (Permᴰ.middle x ys (xs ++ zs)))

pub flat-perm :
    {A B : Type 0} (f : A → List B) (xs ys : List A) → Permᴰ xs ys → Permᴰ (flat f xs) (flat f ys)
flat-perm f _ _ Permᴰ.nil = Permᴰ.nil
flat-perm f _ _ (Permᴰ.cons {a} {b} {l₁} {l₂} e p) =
    subst (λ c. Permᴰ (f a ++ flat f l₁) (f c ++ flat f l₂)) e
      (Permᴰ.append_left (f a) (flat-perm f l₁ l₂ p))
flat-perm f _ _ (Permᴰ.swap {a} {b} {a'} {b'} {l} e g) =
    subst (λ c. Permᴰ (f a ++ (f b ++ flat f l)) (f c ++ (f b' ++ flat f l))) g
      (subst (λ c. Permᴰ (f a ++ (f b ++ flat f l)) (f b ++ (f c ++ flat f l))) e
        (past_each_other (f a) (f b) (flat f l)))
flat-perm f _ _ (Permᴰ.trans p q) = Permᴰ.trans (flat-perm f _ _ p) (flat-perm f _ _ q)

-- What stands behind a prefix goes to the end of another list.
pub moved_out :
    {B : Type 0} (done before out after : List B)
    → Permᴰ ((done ++ out) ++ (before ++ after)) (done ++ (before ++ (out ++ after)))
moved_out done before out after =
    subst (λ l. Permᴰ l (done ++ (before ++ (out ++ after))))
      (sym (append_assoc done out (before ++ after)))
      (Permᴰ.append_left done (past_each_other out before after))

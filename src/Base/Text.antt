-- ===== src/Base/Text.antt =====
-- Go strings and byte slices: both are sequences of bytes.
use Prim.Native.Char.{code}
use Prim.Native.String.{String}
use mathlib.Core.Logic.{dite}
use ons_sawtooth.Base.Logic.{
  ℕ, ◌≡◌, refl, ap₂, Bool, true, false, List, [], ◌∷◌, ite, ℕ_discrete, arith, if◌then◌else◌, ◌%◌,
  ◌/◌, ◌+◌, leb, ltb, ◌&&◌, ◌||◌,
}

abbrev pub Bytes : Type 0
Bytes = List ℕ

abbrev pub GoString : Type 0
GoString = List ℕ

-- The bytes of an ASCII literal.
abbrev pub text : String → GoString
text String.[] = []
text (String.◌∷◌ c s) = code c ∷ text s

pub cons_parts : {x y : ℕ} {xs ys : GoString} → x ∷ xs ≡ y ∷ ys → (x ≡ y) × (xs ≡ ys)
cons_parts p = ground arith

unfoldable pub GoString-discrete : Discrete GoString
unfolding ℕ_discrete
GoString-discrete [] [] = yes refl
GoString-discrete [] (y ∷ ys) = no (λ p. cc)
GoString-discrete (x ∷ xs) [] = no (λ p. cc)
GoString-discrete (x ∷ xs) (y ∷ ys) =
    let rest = GoString-discrete xs ys in
    dite (ℕ_discrete x y)
      (λ p. dite rest (λ q. yes (ap₂ ◌∷◌ p q)) (λ n. no (λ e. n (cons_parts e).1)))
      (λ n. no (λ e. n (cons_parts e).0))

-- `a == b` on strings.
infix 50 ◌==◌
abbrev pub ◌==◌ : GoString → GoString → Bool
a == b = ite (GoString-discrete a b) true false

-- `string(c)` of an integer: the UTF-8 bytes of the code point, those of U+FFFD for no code point.
unfoldable pub string_of_rune : ℕ → GoString
string_of_rune c =
    if ltb c 0x80
    then c ∷ []
    else if ltb c 0x800
    then (0xC0 + c / 64) ∷ (0x80 + c % 64) ∷ []
    else if leb 0xD800 c && leb c 0xDFFF || ltb 0x10FFFF c
    then 0xEF ∷ 0xBF ∷ 0xBD ∷ []
    else if ltb c 0x10000
    then (0xE0 + c / 4096) ∷ (0x80 + c / 64 % 64) ∷ (0x80 + c % 64) ∷ []
    else (0xF0 + c / 262144) ∷ (0x80 + c / 4096 % 64) ∷ (0x80 + c / 64 % 64) ∷ (0x80 + c % 64) ∷ []

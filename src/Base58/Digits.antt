-- ===== src/Base58/Digits.antt =====
-- Numbers written by digits, least significant first: the value, the digits' range, and the
-- uniqueness of the digits that end in a non-zero one.
use cred_trail.Prelude.{ℕ, ◌+◌, ◌*◌, ◌<◌, ◌≡◌, refl, ap₂, List, [], ◌∷◌, arith, All}

abbrev pub value : ℕ → List ℕ → ℕ
value b [] = 0
value b (d ∷ ds) = d + b * value b ds

abbrev pub IsBelow : ℕ → List ℕ → Type 0
IsBelow b = All (λ d. d < b)

-- Digits that are not empty and end in a non-zero one.
abbrev pub IsTrimmed : List ℕ → Type 0
IsTrimmed [] = ⊥
IsTrimmed (d ∷ []) = 0 < d
IsTrimmed (d ∷ e ∷ ds) = IsTrimmed (e ∷ ds)

pub IsTrimmed-cons : (d : ℕ) (ds : List ℕ) → IsTrimmed ds → IsTrimmed (d ∷ ds)
IsTrimmed-cons d [] h = absurd h
IsTrimmed-cons d (e ∷ ds) h = h

pub value-pos : (ds : List ℕ) → IsTrimmed ds → 0 < value 256 ds
value-pos [] h = absurd h
value-pos (d ∷ []) h = omega arith
value-pos (d ∷ e ∷ ds) h = omega (arith, value-pos (e ∷ ds) h)

-- Trimmed digits in base 256 are determined by their value.
pub value-injective :
    (xs ys : List ℕ)
    → IsBelow 256 xs
    → IsBelow 256 ys
    → IsTrimmed xs
    → IsTrimmed ys
    → value 256 xs ≡ value 256 ys
    → xs ≡ ys
value-injective [] ys hx hy tx ty e = absurd tx
value-injective (x ∷ xs) [] hx hy tx ty e = absurd ty
value-injective (x ∷ []) (y ∷ []) hx hy tx ty e = ap₂ ◌∷◌ (omega arith) refl
value-injective (x ∷ []) (y ∷ z ∷ ys) hx hy tx ty e = absurd (omega (arith, value-pos (z ∷ ys) ty))
value-injective (x ∷ w ∷ xs) (y ∷ []) hx hy tx ty e = absurd (omega (arith, value-pos (w ∷ xs) tx))
value-injective (x ∷ w ∷ xs) (y ∷ z ∷ ys) hx hy tx ty e =
    ap₂ ◌∷◌ (omega arith) (value-injective (w ∷ xs) (z ∷ ys) hx.1 hy.1 tx ty (omega arith))

-- ===== src/Base58/Decode.antt =====
-- What the loops of `base58_decode` compute: the digits, base 256, of the number that the letters
-- write in base 58.
use cred_trail.Prelude.{
  ℕ, zero, suc, ◌+◌, ◌*◌, ◌/◌, ◌%◌, ◌≤◌, ◌<◌, ◌≡◌, refl, inl, inr, false, List, [], ◌∷◌, ◌++◌,
  reverse, reverse-append, arith, ◌==◌, Bool-cases,
}
use cred_trail.Base58.{carry_bytes, add_letter}
use cred_trail.Base58.Digits.{value, IsBelow, IsTrimmed, IsTrimmed-cons}

value-carry_bytes : (f c : ℕ) → c ≤ f → value 256 (carry_bytes f c) ≡ c
unfolding carry_bytes
value-carry_bytes zero c h = omega arith
value-carry_bytes (suc f) c h = ground (arith, value-carry_bytes f (c / 256))

carry_bytes-IsBelow : (f c : ℕ) → IsBelow 256 (carry_bytes f c)
unfolding carry_bytes
carry_bytes-IsBelow zero c = tt
carry_bytes-IsBelow (suc f) c = ground (arith, carry_bytes-IsBelow f (c / 256))

carry_bytes-zero : (f : ℕ) → carry_bytes f 0 ≡ []
unfolding carry_bytes
carry_bytes-zero zero = refl
carry_bytes-zero (suc f) = refl

carry_bytes-IsTrimmed : (f c : ℕ) → c ≤ f → 0 < c → IsTrimmed (carry_bytes f c)
unfolding carry_bytes
carry_bytes-IsTrimmed zero c h p = absurd (omega arith)
carry_bytes-IsTrimmed (suc f) c h p =
    let more : (c == 0) ≡ false = ground arith in
    elim (Bool-cases (c / 256 == 0)) [
      | inl small ↦
          let gone : c / 256 ≡ 0 = ground arith in
          let lowest : 0 < c % 256 = omega arith in rw (more, gone, carry_bytes-zero f) lowest
      | inr large ↦ rw more (
          IsTrimmed-cons (c % 256) (carry_bytes f (c / 256))
            (carry_bytes-IsTrimmed f (c / 256) (omega arith) (ground arith)))
    ]

pub value-add_letter : (bs : List ℕ) (c : ℕ) → value 256 (add_letter bs c) ≡ 58 * value 256 bs + c
unfolding add_letter
value-add_letter [] c = omega (arith, value-carry_bytes c c)
value-add_letter (b ∷ bs) c = omega (arith, value-add_letter bs ((b * 58 + c) / 256))

pub add_letter-IsBelow : (bs : List ℕ) (c : ℕ) → IsBelow 256 (add_letter bs c)
unfolding add_letter
add_letter-IsBelow [] c = carry_bytes-IsBelow c c
add_letter-IsBelow (b ∷ bs) c = (omega arith, add_letter-IsBelow bs ((b * 58 + c) / 256))

-- A number that is not zero has its digits trimmed.
pub add_letter-IsTrimmed_pos : (b c : ℕ) → 0 < b * 58 + c → IsTrimmed (add_letter (b ∷ []) c)
unfolding add_letter
add_letter-IsTrimmed_pos b c p = elim (Bool-cases ((b * 58 + c) / 256 == 0)) [
  | inl small ↦
      let gone : (b * 58 + c) / 256 ≡ 0 = ground arith in
      let lowest : 0 < (b * 58 + c) % 256 = omega arith in rw (gone, carry_bytes-zero 0) lowest
  | inr large ↦
      let q = (b * 58 + c) / 256 in
      IsTrimmed-cons ((b * 58 + c) % 256) (carry_bytes q q)
        (carry_bytes-IsTrimmed q q (omega arith) (ground arith))
]

pub add_letter-IsTrimmed : (bs : List ℕ) (c : ℕ) → IsTrimmed bs → IsTrimmed (add_letter bs c)
unfolding add_letter
add_letter-IsTrimmed [] c h = absurd h
add_letter-IsTrimmed (b ∷ []) c h = add_letter-IsTrimmed_pos b c (omega arith)
add_letter-IsTrimmed (b ∷ e ∷ bs) c h =
    IsTrimmed-cons ((b * 58 + c) % 256) (add_letter (e ∷ bs) ((b * 58 + c) / 256))
      (add_letter-IsTrimmed (e ∷ bs) ((b * 58 + c) / 256) h)

pub add_letter-zero : add_letter (0 ∷ []) 0 ≡ 0 ∷ []
unfolding add_letter carry_bytes
add_letter-zero = refl

-- The outer loop over the letters of digits, the most significant first.
unfoldable pub add_digits : List ℕ → List ℕ → List ℕ
add_digits bs [] = bs
add_digits bs (d ∷ ds) = add_digits (add_letter bs d) ds

pub add_digits-append :
    (bs xs ys : List ℕ) → add_digits bs (xs ++ ys) ≡ add_digits (add_digits bs xs) ys
unfolding add_digits
add_digits-append bs [] ys = refl
add_digits-append bs (x ∷ xs) ys = add_digits-append (add_letter bs x) xs ys

pub add_digits-IsBelow : (bs ds : List ℕ) → IsBelow 256 bs → IsBelow 256 (add_digits bs ds)
unfolding add_digits
add_digits-IsBelow bs [] h = h
add_digits-IsBelow bs (d ∷ ds) h = add_digits-IsBelow (add_letter bs d) ds (add_letter-IsBelow bs d)

pub add_digits-IsTrimmed : (bs ds : List ℕ) → IsTrimmed bs → IsTrimmed (add_digits bs ds)
unfolding add_digits
add_digits-IsTrimmed bs [] h = h
add_digits-IsTrimmed bs (d ∷ ds) h =
    add_digits-IsTrimmed (add_letter bs d) ds (add_letter-IsTrimmed bs d h)

-- Reading digits from the last, which is the most significant, gives their value.
pub value-add_digits-reverse :
    (ds : List ℕ) → value 256 (add_digits (0 ∷ []) (reverse ds)) ≡ value 58 ds
unfolding add_digits
value-add_digits-reverse [] = omega arith
value-add_digits-reverse (d ∷ ds) =
    let split : reverse (d ∷ ds) ≡ reverse ds ++ d ∷ [] = reverse-append (d ∷ []) ds in
    rw (split, add_digits-append (0 ∷ []) (reverse ds) (d ∷ []))
      (omega
        (arith, value-add_letter (add_digits (0 ∷ []) (reverse ds)) d, value-add_digits-reverse ds))

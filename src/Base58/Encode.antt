-- ===== src/Base58/Encode.antt =====
-- What the loops of `base58_encode` compute: the digits, base 58, of the number that the bytes
-- write in base 256.
use cred_trail.Prelude.{
  ℕ, zero, suc, ◌+◌, ◌*◌, ◌/◌, ◌%◌, ◌≤◌, ◌<◌, ◌≡◌, refl, ap, ◌∙◌, inl, inr, false, List, [], ◌∷◌,
  arith, ◌==◌, Bool-cases,
}
use cred_trail.Base58.{carry_digits, add_byte, encode_digits}
use cred_trail.Base58.Digits.{value, IsBelow, IsTrimmed, IsTrimmed-cons}

-- With the carry itself as fuel the loop writes the carry.
value-carry_digits : (f c : ℕ) → c ≤ f → value 58 (carry_digits f c) ≡ c
unfolding carry_digits
value-carry_digits zero c h = omega arith
value-carry_digits (suc f) c h = ground (arith, value-carry_digits f (c / 58))

carry_digits-IsBelow : (f c : ℕ) → IsBelow 58 (carry_digits f c)
unfolding carry_digits
carry_digits-IsBelow zero c = tt
carry_digits-IsBelow (suc f) c = ground (arith, carry_digits-IsBelow f (c / 58))

carry_digits-zero : (f : ℕ) → carry_digits f 0 ≡ []
unfolding carry_digits
carry_digits-zero zero = refl
carry_digits-zero (suc f) = refl

carry_digits-IsTrimmed : (f c : ℕ) → c ≤ f → 0 < c → IsTrimmed (carry_digits f c)
unfolding carry_digits
carry_digits-IsTrimmed zero c h p = absurd (omega arith)
carry_digits-IsTrimmed (suc f) c h p =
    let more : (c == 0) ≡ false = ground arith in
    elim (Bool-cases (c / 58 == 0)) [
      | inl small ↦
          let gone : c / 58 ≡ 0 = ground arith in
          let lowest : 0 < c % 58 = omega arith in rw (more, gone, carry_digits-zero f) lowest
      | inr large ↦ rw more (
          IsTrimmed-cons (c % 58) (carry_digits f (c / 58))
            (carry_digits-IsTrimmed f (c / 58) (omega arith) (ground arith)))
    ]

pub value-add_byte : (ds : List ℕ) (c : ℕ) → value 58 (add_byte ds c) ≡ 256 * value 58 ds + c
unfolding add_byte
value-add_byte [] c = omega (arith, value-carry_digits c c)
value-add_byte (d ∷ ds) c = omega (arith, value-add_byte ds ((d * 256 + c) / 58))

pub add_byte-IsBelow : (ds : List ℕ) (c : ℕ) → IsBelow 58 (add_byte ds c)
unfolding add_byte
add_byte-IsBelow [] c = carry_digits-IsBelow c c
add_byte-IsBelow (d ∷ ds) c = (omega arith, add_byte-IsBelow ds ((d * 256 + c) / 58))

-- A number that is not zero has its digits trimmed.
pub add_byte-IsTrimmed_pos : (d c : ℕ) → 0 < d * 256 + c → IsTrimmed (add_byte (d ∷ []) c)
unfolding add_byte
add_byte-IsTrimmed_pos d c p = elim (Bool-cases ((d * 256 + c) / 58 == 0)) [
  | inl small ↦
      let gone : (d * 256 + c) / 58 ≡ 0 = ground arith in
      let lowest : 0 < (d * 256 + c) % 58 = omega arith in rw (gone, carry_digits-zero 0) lowest
  | inr large ↦
      let q = (d * 256 + c) / 58 in
      IsTrimmed-cons ((d * 256 + c) % 58) (carry_digits q q)
        (carry_digits-IsTrimmed q q (omega arith) (ground arith))
]

pub add_byte-IsTrimmed : (ds : List ℕ) (c : ℕ) → IsTrimmed ds → IsTrimmed (add_byte ds c)
unfolding add_byte
add_byte-IsTrimmed [] c h = absurd h
add_byte-IsTrimmed (d ∷ []) c h = add_byte-IsTrimmed_pos d c (omega arith)
add_byte-IsTrimmed (d ∷ e ∷ ds) c h =
    IsTrimmed-cons ((d * 256 + c) % 58) (add_byte (e ∷ ds) ((d * 256 + c) / 58))
      (add_byte-IsTrimmed (e ∷ ds) ((d * 256 + c) / 58) h)

pub add_byte-zero : add_byte (0 ∷ []) 0 ≡ 0 ∷ []
unfolding add_byte carry_digits
add_byte-zero = refl

-- The outer loop, from digits that are trimmed.
pub encode_digits-IsTrimmed : (ds bs : List ℕ) → IsTrimmed ds → IsTrimmed (encode_digits ds bs)
unfolding encode_digits
encode_digits-IsTrimmed ds [] h = h
encode_digits-IsTrimmed ds (b ∷ bs) h =
    encode_digits-IsTrimmed (add_byte ds b) bs (add_byte-IsTrimmed ds b h)

pub encode_digits-IsBelow : (ds bs : List ℕ) → IsBelow 58 ds → IsBelow 58 (encode_digits ds bs)
unfolding encode_digits
encode_digits-IsBelow ds [] h = h
encode_digits-IsBelow ds (b ∷ bs) h =
    encode_digits-IsBelow (add_byte ds b) bs (add_byte-IsBelow ds b)

-- The number that bytes write, the most significant first, after the number `n`.
abbrev pub read_bytes : ℕ → List ℕ → ℕ
read_bytes n [] = n
read_bytes n (b ∷ bs) = read_bytes (256 * n + b) bs

pub value-encode_digits :
    (ds bs : List ℕ) → value 58 (encode_digits ds bs) ≡ read_bytes (value 58 ds) bs
unfolding encode_digits
value-encode_digits ds [] = refl
value-encode_digits ds (b ∷ bs) =
    value-encode_digits (add_byte ds b) bs ∙ ap (λ n. read_bytes n bs) (value-add_byte ds b)

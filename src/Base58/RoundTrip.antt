-- ===== src/Base58/RoundTrip.antt =====
-- `base58_decode` after `base58_encode` (Base58.antt).
use cred_trail.Prelude.{
  ℕ, zero, suc, ◌+◌, ◌*◌, ◌<◌, ◌≡◌, refl, sym, ap, ◌∙◌, ◌≢◌, true, some, List, [], ◌∷◌, ◌++◌,
  reverse, reverse-append, reverse-reverse, append-nil, arith, ltb, replicate, any, All-append,
}
use cred_trail.Base58.{
  leading, letters, add_byte, add_letter, carry_digits, encode_digits, base58_encode, decode_bytes,
  base58_decode,
}
use cred_trail.Base58.Digits.{value, IsBelow, IsTrimmed, value-injective}
use cred_trail.Base58.Encode.{
  read_bytes, encode_digits-IsTrimmed, encode_digits-IsBelow, value-encode_digits,
  add_byte-IsTrimmed_pos,
}
use cred_trail.Base58.Decode.{
  add_digits, add_letter-zero, add_letter-IsTrimmed_pos, add_digits-IsBelow, add_digits-IsTrimmed,
  value-add_digits-reverse,
}
use cred_trail.Base58.Letters.{
  letters-append, decode_bytes-letters, leading-letters, letters-ne-nil,
}

-- The first digit is not zero.
abbrev StartsPos : List ℕ → Type 0
StartsPos [] = ⊥
StartsPos (x ∷ xs) = 0 < x

StartsPos-append : (xs ys : List ℕ) → StartsPos xs → StartsPos (xs ++ ys)
StartsPos-append [] ys h = absurd h
StartsPos-append (x ∷ xs) ys h = h

StartsPos-ne-nil : (xs : List ℕ) → StartsPos xs → xs ≢ []
StartsPos-ne-nil [] h = absurd h
StartsPos-ne-nil (x ∷ xs) h = λ e. cc

reverse-StartsPos : (ds : List ℕ) → IsTrimmed ds → StartsPos (reverse ds)
reverse-StartsPos [] h = absurd h
reverse-StartsPos (d ∷ []) h = h
reverse-StartsPos (d ∷ e ∷ ds) h =
    rw (reverse-append (d ∷ []) (e ∷ ds))
      (StartsPos-append (reverse (e ∷ ds)) (d ∷ []) (reverse-StartsPos (e ∷ ds) h))

IsTrimmed-append : (xs : List ℕ) (b : ℕ) → 0 < b → IsTrimmed (xs ++ b ∷ [])
IsTrimmed-append [] b h = h
IsTrimmed-append (x ∷ []) b h = h
IsTrimmed-append (x ∷ y ∷ xs) b h = IsTrimmed-append (y ∷ xs) b h

reverse-IsTrimmed : (b : ℕ) (bs : List ℕ) → 0 < b → IsTrimmed (reverse (b ∷ bs))
reverse-IsTrimmed b bs h = rw (reverse-append (b ∷ []) bs) (IsTrimmed-append (reverse bs) b h)

reverse-IsBelow : (b : ℕ) (xs : List ℕ) → IsBelow b xs → IsBelow b (reverse xs)
reverse-IsBelow b [] h = tt
reverse-IsBelow b (x ∷ xs) h =
    rw (reverse-append (x ∷ []) xs)
      (All-append (λ d. d < b) (reverse xs) (x ∷ []) (reverse-IsBelow b xs h.1) (h.0, tt))

read_bytes-append :
    (n : ℕ) (xs ys : List ℕ) → read_bytes n (xs ++ ys) ≡ read_bytes (read_bytes n xs) ys
read_bytes-append n [] ys = refl
read_bytes-append n (x ∷ xs) ys = read_bytes-append (256 * n + x) xs ys

read_bytes-reverse : (ds : List ℕ) → read_bytes 0 (reverse ds) ≡ value 256 ds
read_bytes-reverse [] = refl
read_bytes-reverse (d ∷ ds) =
    rw (reverse-append (d ∷ []) ds, read_bytes-append 0 (reverse ds) (d ∷ []))
      (omega (arith, read_bytes-reverse ds))

leading-replicate : (z : ℕ) (xs : List ℕ) → StartsPos xs → leading 0 (replicate z 0 ++ xs) ≡ z
unfolding leading
leading-replicate zero [] h = absurd h
leading-replicate zero (x ∷ xs) h = ground arith
leading-replicate (suc z) xs h = ap suc (leading-replicate z xs h)

replicate-IsBelow : (z : ℕ) → IsBelow 58 (replicate z 0)
replicate-IsBelow zero = tt
replicate-IsBelow (suc z) = (omega arith, replicate-IsBelow z)

add_digits-StartsPos : (ds : List ℕ) → StartsPos ds → IsTrimmed (add_digits (0 ∷ []) ds)
unfolding add_digits
add_digits-StartsPos [] h = absurd h
add_digits-StartsPos (d ∷ ds) h =
    add_digits-IsTrimmed (add_letter (0 ∷ []) d) ds (add_letter-IsTrimmed_pos 0 d (omega arith))

encode_digits-replicate :
    (z : ℕ) (bs : List ℕ) → encode_digits (0 ∷ []) (replicate z 0 ++ bs) ≡ encode_digits (0 ∷ []) bs
unfolding encode_digits add_byte carry_digits
encode_digits-replicate zero bs = refl
encode_digits-replicate (suc z) bs = encode_digits-replicate z bs

add_digits-replicate :
    (z : ℕ) (ds : List ℕ) → add_digits (0 ∷ []) (replicate z 0 ++ ds) ≡ add_digits (0 ∷ []) ds
unfolding add_digits
add_digits-replicate zero ds = refl
add_digits-replicate (suc z) ds = rw (add_digits, add_letter-zero) (add_digits-replicate z ds)

base58_encode_lem :
    (bs : List ℕ)
    → bs ≢ []
    → base58_encode bs ≡ letters (replicate (leading 0 bs) 0 ++ reverse (encode_digits (0 ∷ []) bs))
unfolding base58_encode
base58_encode_lem [] h = absurd (h refl)
base58_encode_lem (b ∷ bs) h =
    sym (
      letters-append (replicate (leading 0 (b ∷ bs)) 0) (reverse (encode_digits (0 ∷ []) (b ∷ bs))))

base58_decode_lem :
    (cs bytes : List ℕ)
    → cs ≢ []
    → decode_bytes (0 ∷ []) cs ≡ some bytes
    → base58_decode cs ≡ some (replicate (leading b'1' cs) 0 ++ reverse bytes)
unfolding base58_decode
base58_decode_lem [] bytes h e = absurd (h refl)
base58_decode_lem (c ∷ cs) bytes h e = rw (e, base58_decode)

append-ne-nil : (z : ℕ) (xs : List ℕ) → xs ≢ [] → replicate z 0 ++ xs ≢ []
append-ne-nil zero xs h = h
append-ne-nil (suc z) xs h = λ e. cc

-- Decoding the letters of digits.
base58_decode-letters :
    (ds : List ℕ)
    → IsBelow 58 ds
    → ds ≢ []
    → base58_decode (letters ds)
      ≡ some (replicate (leading 0 ds) 0 ++ reverse (add_digits (0 ∷ []) ds))
base58_decode-letters ds h n = rw (← leading-letters ds h) (
    base58_decode_lem (letters ds) (add_digits (0 ∷ []) ds) (letters-ne-nil ds h n)
      (decode_bytes-letters (0 ∷ []) ds h))

module _ (b : ℕ) (rest : List ℕ) (pos : 0 < b) (below : IsBelow 256 (b ∷ rest)) where
  digits : List ℕ
  digits = encode_digits (0 ∷ []) (b ∷ rest)

  digits-IsTrimmed : IsTrimmed digits
  unfolding digits encode_digits
  digits-IsTrimmed =
      encode_digits-IsTrimmed (add_byte (0 ∷ []) b) rest (add_byte-IsTrimmed_pos 0 b (omega arith))

  digits-IsBelow : IsBelow 58 (reverse digits)
  unfolding digits
  digits-IsBelow =
      reverse-IsBelow 58 digits (encode_digits-IsBelow (0 ∷ []) (b ∷ rest) (omega arith))

  -- The bytes that the decoder computes are those that were encoded, the last first.
  add_digits-digits : add_digits (0 ∷ []) (reverse digits) ≡ reverse (b ∷ rest)
  unfolding digits
  add_digits-digits =
      value-injective (add_digits (0 ∷ []) (reverse digits)) (reverse (b ∷ rest))
        (add_digits-IsBelow (0 ∷ []) (reverse digits) (omega arith))
        (reverse-IsBelow 256 (b ∷ rest) below)
        (add_digits-StartsPos (reverse digits) (reverse-StartsPos digits digits-IsTrimmed))
        (reverse-IsTrimmed b rest pos)
        (value-add_digits-reverse digits
          ∙ value-encode_digits (0 ∷ []) (b ∷ rest)
          ∙ ap (read_bytes 0) (sym (reverse-reverse (b ∷ rest)))
          ∙ read_bytes-reverse (reverse (b ∷ rest)))

  decode-encode_zeros :
      (z : ℕ)
      → base58_decode (base58_encode (replicate z 0 ++ b ∷ rest)) ≡ some (replicate z 0 ++ b ∷ rest)
  unfolding digits
  decode-encode_zeros z = rw (
    base58_encode_lem (replicate z 0 ++ b ∷ rest) (append-ne-nil z (b ∷ rest) (λ e. cc)),
    leading-replicate z (b ∷ rest) pos,
    encode_digits-replicate z (b ∷ rest),
    base58_decode-letters (replicate z 0 ++ reverse digits)
        (All-append (λ d. d < 58) (replicate z 0) (reverse digits) (replicate-IsBelow z)
          digits-IsBelow)
        (append-ne-nil z (reverse digits)
          (StartsPos-ne-nil (reverse digits) (reverse-StartsPos digits digits-IsTrimmed))),
    leading-replicate z (reverse digits) (reverse-StartsPos digits digits-IsTrimmed),
    add_digits-replicate z (reverse digits),
    add_digits-digits,
    reverse-reverse (b ∷ rest),
  )

-- Bytes that are not all zero, taken apart at the first that is not.
split_zeros :
    (bs : List ℕ)
    → any (ltb 0) bs ≡ true
    → (z b : ℕ) × (rest : List ℕ) × (bs ≡ replicate z 0 ++ b ∷ rest) × (0 < b)
split_zeros [] h = cc
split_zeros (zero ∷ bs) h =
    let (z, b, rest, e, pos) = split_zeros bs h in (suc z, b, rest, ap (λ l. 0 ∷ l) e, pos)
split_zeros (suc b ∷ bs) h = (0, suc b, bs, refl, omega arith)

IsBelow-drop : (b z : ℕ) (xs : List ℕ) → IsBelow b (replicate z 0 ++ xs) → IsBelow b xs
IsBelow-drop b zero xs h = h
IsBelow-drop b (suc z) xs h = IsBelow-drop b z xs h.1

-- Bytes of which one at least is not zero are decoded from their base58 text as they were.
pub base58_decode-encode :
    (bs : List ℕ)
    → IsBelow 256 bs
    → any (ltb 0) bs ≡ true
    → base58_decode (base58_encode bs) ≡ some bs
base58_decode-encode bs h nonzero =
    let (z, b, rest, e, pos) = split_zeros bs nonzero in
    let below : IsBelow 256 (b ∷ rest) = IsBelow-drop 256 z (b ∷ rest) (rw e at h) in
    rw e (decode-encode_zeros b rest pos below z)

abbrev zeros : ℕ → List ℕ
zeros z = replicate z 0

zeros-append : (z : ℕ) → zeros z ++ 0 ∷ [] ≡ zeros (suc z)
zeros-append zero = refl
zeros-append (suc z) = ap (λ l. 0 ∷ l) (zeros-append z)

leading-replicate_all : (z : ℕ) → leading 0 (replicate z 0) ≡ z
unfolding leading
leading-replicate_all zero = refl
leading-replicate_all (suc z) = ap suc (leading-replicate_all z)

encode_digits-zeros : (z : ℕ) → encode_digits (0 ∷ []) (zeros z) ≡ 0 ∷ []
unfolding encode_digits
encode_digits-zeros z =
    ap (encode_digits (0 ∷ [])) (sym (append-nil (zeros z))) ∙ encode_digits-replicate z []

add_digits-zeros : (z : ℕ) → add_digits (0 ∷ []) (zeros z) ≡ 0 ∷ []
unfolding add_digits
add_digits-zeros z =
    ap (add_digits (0 ∷ [])) (sym (append-nil (zeros z))) ∙ add_digits-replicate z []

base58_encode-zeros : (n : ℕ) → base58_encode (zeros (suc n)) ≡ letters (zeros (suc (suc n)))
base58_encode-zeros n =
    rw
      (
        base58_encode_lem (zeros (suc n)) (λ e. cc),
        leading-replicate_all (suc n),
        encode_digits-zeros (suc n),
      )
      (ap letters (zeros-append (suc n)))

-- Bytes that are all zero, at least one of them, are decoded with two zero bytes more than were
-- encoded.
pub base58_decode-encode_zeros :
    (n : ℕ)
    → base58_decode (base58_encode (replicate (suc n) 0)) ≡ some (replicate (suc (suc (suc n))) 0)
base58_decode-encode_zeros n =
    ap base58_decode (base58_encode-zeros n)
    ∙ base58_decode-letters (zeros (suc (suc n))) (replicate-IsBelow (suc (suc n))) (λ e. cc)
    ∙ rw (leading-replicate_all (suc (suc n)), add_digits-zeros (suc (suc n)))
        (ap some (zeros-append (suc (suc n))))

-- ===== src/Base58/Letters.antt =====
-- The alphabet of Base58.antt, a letter for each digit.
use cred_trail.Prelude.{
  ℕ, zero, suc, ◌<◌, ◌≡◌, refl, sym, ap, ◌∙◌, ◌≢◌, Bool, true, false, not, ◌&&◌, Option, none, some,
  List, [], ◌∷◌, ◌++◌, append_assoc, arith, ◌==◌, ==_iff, get_elem?,
}
use cred_trail.Base58.{
  base58_alphabet, index_of, letter, letters, leading, decode_bytes, add_letter,
}
use cred_trail.Base58.Digits.{IsBelow}
use cred_trail.Base58.Decode.{add_digits}

-- A test of the numbers from 0 up to a bound.
test_below : (ℕ → Bool) → ℕ → Bool
test_below ok zero = true
test_below ok (suc top) = test_below ok top && ok top

test_below_sound : (ok : ℕ → Bool) (top d : ℕ) → d < top → test_below ok top ≡ true → ok d ≡ true
unfolding test_below
test_below_sound ok zero d below passed = absurd (omega arith)
test_below_sound ok (suc top) d below passed = ground (arith, test_below_sound ok top d)

abbrev agree : Bool → Bool → Bool
agree true b = b
agree false b = not b

abbrev is_index : Option ℕ → ℕ → Bool
is_index none d = false
is_index (some i) d = i == d

abbrev has_letter : Option ℕ → ℕ → Bool
has_letter none d = false
has_letter (some c) d = is_index (index_of c base58_alphabet) d && agree (c == b'1') (d == 0)

letters_table : test_below (λ d. has_letter (get_elem? base58_alphabet d) d) 58 ≡ true
unfolding test_below index_of
letters_table = refl

is_index_sound : (o : Option ℕ) (d : ℕ) → is_index o d ≡ true → o ≡ some d
is_index_sound none d h = cc
is_index_sound (some i) d h = ap some ((==_iff i d).0 h)

has_letter_sound :
    (o : Option ℕ) (d : ℕ)
    → has_letter o d ≡ true
    → (c : ℕ) × (o ≡ some c) × (index_of c base58_alphabet ≡ some d) × ((c == b'1') ≡ (d == 0))
has_letter_sound none d h = cc
has_letter_sound (some c) d h =
    (c, refl, is_index_sound (index_of c base58_alphabet) d (ground arith), ground arith)

letter_of :
    (d : ℕ)
    → d < 58
    → (c : ℕ) × (get_elem? base58_alphabet d ≡ some c)
      × (index_of c base58_alphabet ≡ some d)
      × ((c == b'1') ≡ (d == 0))
letter_of d h =
    has_letter_sound (get_elem? base58_alphabet d) d
      (test_below_sound (λ e. has_letter (get_elem? base58_alphabet e) e) 58 d h letters_table)

pub letters-append : (xs ys : List ℕ) → letters (xs ++ ys) ≡ letters xs ++ letters ys
unfolding letters
letters-append [] ys = refl
letters-append (x ∷ xs) ys =
    ap (λ l. letter x ++ l) (letters-append xs ys)
    ∙ sym (append_assoc (letter x) (letters xs) (letters ys))

-- Reading letters back adds their digits.
pub decode_bytes-letters :
    (bs ds : List ℕ) → IsBelow 58 ds → decode_bytes bs (letters ds) ≡ some (add_digits bs ds)
unfolding letters decode_bytes add_digits
decode_bytes-letters bs [] h = refl
decode_bytes-letters bs (d ∷ ds) h =
    let (c, letter_d, index_c, ones) = letter_of d h.0 in
    rw (letter_d, letter)
      (rw (index_c, decode_bytes) (decode_bytes-letters (add_letter bs d) ds h.1))

-- The letters "1" at the front are the digits 0 at the front.
pub leading-letters : (ds : List ℕ) → IsBelow 58 ds → leading b'1' (letters ds) ≡ leading 0 ds
unfolding letters leading
leading-letters [] h = refl
leading-letters (d ∷ ds) h =
    let (c, letter_d, index_c, ones) = letter_of d h.0 in
    rw (letter_d, letter) (rw (ones, leading-letters ds h.1) refl)

pub letters-ne-nil : (ds : List ℕ) → IsBelow 58 ds → ds ≢ [] → letters ds ≢ []
unfolding letters
letters-ne-nil [] h n = absurd (n refl)
letters-ne-nil (d ∷ ds) h n =
    let (c, letter_d, index_c, ones) = letter_of d h.0 in rw (letter_d, letter) (λ e. cc)

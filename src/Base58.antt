-- ===== src/Base58.antt =====
-- Base58 text of a byte string: `base58Encode` and `base58Decode` of
-- packages/core-domain/src/index.ts. Bytes are numbers, a text is the list of its character codes.
pub mod Digits
pub mod Encode
pub mod Decode
mod Letters
pub mod RoundTrip
mod Tests
use cred_trail.Prelude.{
  ℕ, zero, suc, ◌+◌, ◌*◌, ◌/◌, ◌%◌, Option, none, some, List, [], ◌∷◌, ◌++◌, reverse, String, ◌==◌,
  if◌then◌else◌, get_elem?, replicate,
}
use Prim.Native.Char.{code}

abbrev pub codes : String → List ℕ
codes String.[] = []
codes (String.◌∷◌ point text) = code point ∷ codes text

abbrev pub base58_alphabet : List ℕ
base58_alphabet = codes "123456789ABCDEFGHJKLMNPQRSTUVWXYZabcdefghijkmnopqrstuvwxyz"

-- `while (carry > 0) { digits.push(carry % 58); carry = Math.floor(carry / 58); }`
carry_digits : ℕ → ℕ → List ℕ
carry_digits zero carry = []
carry_digits (suc fuel) carry =
    let rest = carry_digits fuel (carry / 58) in if carry == 0 then [] else (carry % 58) ∷ rest

-- The inner loop over the digits, least significant first, and then the loop above.
pub add_byte : List ℕ → ℕ → List ℕ
add_byte [] carry = carry_digits carry carry
add_byte (d ∷ ds) carry = let next = d * 256 + carry in (next % 58) ∷ add_byte ds (next / 58)

pub encode_digits : List ℕ → List ℕ → List ℕ
encode_digits digits [] = digits
encode_digits digits (byte ∷ bytes) = encode_digits (add_byte digits byte) bytes

-- The length of the run of `a` at the front.
pub leading : ℕ → List ℕ → ℕ
leading a [] = 0
leading a (x ∷ xs) = if x == a then suc (leading a xs) else 0

-- `BASE58_ALPHABET[d] ?? ""`, as a list of at most one character.
abbrev pub letter : ℕ → List ℕ
letter d = elim (get_elem? base58_alphabet d) [ none ↦ [] | some c ↦ c ∷ [] ]

pub letters : List ℕ → List ℕ
letters [] = []
letters (d ∷ ds) = letter d ++ letters ds

unfoldable pub base58_encode : List ℕ → List ℕ
unfolding carry_digits add_byte encode_digits leading letters
base58_encode [] = []
base58_encode (b ∷ bs) =
    letters (replicate (leading 0 (b ∷ bs)) 0)
    ++ letters (reverse (encode_digits (0 ∷ []) (b ∷ bs)))

-- `BASE58_ALPHABET.indexOf(char)`, `none` for -1.
pub index_of : ℕ → List ℕ → Option ℕ
index_of c [] = none
index_of c (a ∷ as') =
    if c == a then some 0 else elim (index_of c as') [ none ↦ none | some i ↦ some (suc i) ]

-- `while (carry > 0) { bytes.push(carry & 0xff); carry >>= 8; }`
carry_bytes : ℕ → ℕ → List ℕ
carry_bytes zero carry = []
carry_bytes (suc fuel) carry =
    let rest = carry_bytes fuel (carry / 256) in if carry == 0 then [] else (carry % 256) ∷ rest

pub add_letter : List ℕ → ℕ → List ℕ
add_letter [] carry = carry_bytes carry carry
add_letter (b ∷ bs) carry = let next = b * 58 + carry in (next % 256) ∷ add_letter bs (next / 256)

-- `none` is the error "Invalid base58 character in proof value".
pub decode_bytes : List ℕ → List ℕ → Option (List ℕ)
decode_bytes bytes [] = some bytes
decode_bytes bytes (c ∷ cs) = elim (index_of c base58_alphabet) [
  | none ↦ none
  | some i ↦ decode_bytes (add_letter bytes i) cs
]

unfoldable pub base58_decode : List ℕ → Option (List ℕ)
unfolding index_of carry_bytes add_letter decode_bytes leading
base58_decode [] = some []
base58_decode (c ∷ cs) = elim (decode_bytes (0 ∷ []) (c ∷ cs)) [
  | none ↦ none
  | some bytes ↦ some (replicate (leading b'1' (c ∷ cs)) 0 ++ reverse bytes)
]

-- ===== src/Base58/Tests.antt =====
-- Runs of the two functions of Base58.antt, and the instances of their theorems.
use cred_trail.Prelude.{◌≡◌, refl, some, [], ◌∷◌, arith}
use cred_trail.Base58.{codes, base58_encode, base58_decode}
use cred_trail.Base58.RoundTrip.{base58_decode-encode, base58_decode-encode_zeros}

encode_run : base58_encode (0 ∷ 1 ∷ 255 ∷ []) ≡ codes "19p"
unfolding base58_encode
encode_run = refl

decode_run : base58_decode (codes "19p") ≡ some (0 ∷ 1 ∷ 255 ∷ [])
unfolding base58_decode
decode_run = refl

base58_decode-encode_example :
    base58_decode (base58_encode (0 ∷ 1 ∷ 255 ∷ [])) ≡ some (0 ∷ 1 ∷ 255 ∷ [])
base58_decode-encode_example = base58_decode-encode (0 ∷ 1 ∷ 255 ∷ []) (omega arith) refl

base58_decode-encode_zeros_example : base58_decode (base58_encode (0 ∷ [])) ≡ some (0 ∷ 0 ∷ 0 ∷ [])
base58_decode-encode_zeros_example = base58_decode-encode_zeros 0

-- ===== src/Utils/Base64.antt =====
-- base64encode and base64decode of src/framework/utils.cpp.
pub mod RoundTrip
use wlan_cloud_ucentralfms.Common.{
  ℕ, ◌+◌, ◌-◌, ◌*◌, ◌/◌, ◌%◌, ◌^◌, true, false, not, ◌&&◌, Option, none, some, List, [], ◌∷◌, ◌++◌,
  leb, num_eq, if◌then◌else◌, length, get_or, Text, codes,
}

pub data Error : Type 0 where
  invalid_length invalid_padding invalid_character : Error

pub data Decoded : Type 0 where
  ok : List ℕ → Decoded
  err : Error → Decoded

-- kEncodeLookup
abbrev pub encode_table : Text
encode_table = codes "ABCDEFGHIJKLMNOPQRSTUVWXYZabcdefghijklmnopqrstuvwxyz0123456789+/"

-- kEncodeLookup[(temp & mask) >> shift], where the mask takes the six bits above the shift.
pub encode_lookup : ℕ → ℕ
encode_lookup k = get_or encode_table k 0

abbrev pub word32 : ℕ
word32 = 2 ^ 32

-- The rounds of the loop, three bytes each, and then the switch on what is left.
unfoldable pub base64encode : List ℕ → Text
base64encode [] = []
base64encode (a ∷ []) =
    let temp = a * 2 ^ 16 in
    encode_lookup (temp / 2 ^ 18 % 64) ∷ encode_lookup (temp / 2 ^ 12 % 64) ∷ b'=' ∷ b'=' ∷ []
base64encode (a ∷ b ∷ []) =
    let temp = a * 2 ^ 16 + b * 2 ^ 8 in
    encode_lookup (temp / 2 ^ 18 % 64)
    ∷ encode_lookup (temp / 2 ^ 12 % 64)
    ∷ encode_lookup (temp / 2 ^ 6 % 64)
    ∷ b'='
    ∷ []
base64encode (a ∷ b ∷ c ∷ input) =
    let temp = a * 2 ^ 16 + b * 2 ^ 8 + c in
    encode_lookup (temp / 2 ^ 18 % 64)
    ∷ encode_lookup (temp / 2 ^ 12 % 64)
    ∷ encode_lookup (temp / 2 ^ 6 % 64)
    ∷ encode_lookup (temp % 64)
    ∷ base64encode input

-- What a character of the alphabet puts into the low six bits.
pub sextet : ℕ → Option ℕ
sextet c =
    if leb 0x41 c && leb c 0x5A
    then some (c - 0x41)
    else if leb 0x61 c && leb c 0x7A
    then some (c - 0x47)
    else if leb 0x30 c && leb c 0x39
    then some (c + 0x04)
    else if num_eq c 0x2B
    then some 0x3E
    else if num_eq c 0x2F
    then some 0x3F
    else none

-- The case of the padding character: what is decoded depends on how much input is left behind it.
pub finish : ℕ → List ℕ → Text → Decoded
finish temp decoded [] = ok (decoded ++ temp / 2 ^ 16 % 256 ∷ temp / 2 ^ 8 % 256 ∷ [])
finish temp decoded (c ∷ []) = ok (decoded ++ temp / 2 ^ 10 % 256 ∷ [])
finish temp decoded (c ∷ d ∷ input) = err invalid_padding

-- The loops over groups and over the four characters of a group, `i` being the place in the group.
-- `temp` is never reset: each character shifts it by six bits within 32.
pub decode_loop : ℕ → ℕ → List ℕ → Text → Decoded
decode_loop i temp decoded [] = ok decoded
decode_loop i temp decoded (c ∷ input) = elim (sextet c) [
  | some v ↦
      let t = temp * 64 % word32 + v in
      elim (num_eq i 3) [
        | true ↦
            decode_loop 0 t (decoded ++ t / 2 ^ 16 % 256 ∷ t / 2 ^ 8 % 256 ∷ t % 256 ∷ []) input
        | false ↦ decode_loop (i + 1) t decoded input
      ]
  | none ↦
      if num_eq c b'=' then finish (temp * 64 % word32) decoded input else err invalid_character
]

unfoldable pub base64decode : Text → Decoded
unfolding decode_loop finish sextet
base64decode input =
    if not (num_eq (length input % 4) 0) then err invalid_length else decode_loop 0 0 [] input

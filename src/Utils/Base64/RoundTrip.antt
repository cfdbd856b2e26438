-- ===== src/Utils/Base64/RoundTrip.antt =====
-- What base64encode writes, base64decode reads back.
use mathlib.Core.Path.{ap₂}
use wlan_cloud_ucentralfms.Common.{
  ℕ, zero, suc, ◌+◌, ◌*◌, ◌/◌, ◌%◌, ◌^◌, ◌<◌, ◌≡◌, refl, sym, ap, ◌∙◌, Bool, true, false, ◌&&◌,
  Option, none, some, List, [], ◌∷◌, ◌++◌, append-nil, append_assoc, arith, num_eq, length, All,
  Text,
}
use wlan_cloud_ucentralfms.Utils.Base64.{
  encode_lookup, word32, base64encode, sextet, finish, decode_loop, base64decode, ok,
}

abbrev is_value : Option ℕ → ℕ → Bool
is_value none k = false
is_value (some v) k = num_eq v k

is_value-eq : (o : Option ℕ) (k : ℕ) → is_value o k ≡ true → o ≡ some k
is_value-eq none k h = cc
is_value-eq (some v) k h = ground arith

-- The characters of the alphabet below a place all decode to theirs.
decodes_below : ℕ → Bool
decodes_below zero = true
decodes_below (suc k) = decodes_below k && is_value (sextet (encode_lookup k)) k

decodes_below-all : decodes_below 64 ≡ true
unfolding decodes_below sextet encode_lookup
decodes_below-all = refl

decodes_below-at :
    (last k : ℕ)
    → decodes_below last ≡ true
    → k < last
    → is_value (sextet (encode_lookup k)) k ≡ true
unfolding decodes_below
decodes_below-at zero k every small = absurd (omega arith)
decodes_below-at (suc last) k every small = ground (arith, decodes_below-at last k)

-- The 64 characters of the alphabet decode to their places.
sextet-encode_lookup : (k : ℕ) → k < 64 → sextet (encode_lookup k) ≡ some k
sextet-encode_lookup k h =
    is_value-eq (sextet (encode_lookup k)) k (decodes_below-at 64 k decodes_below-all h)

abbrev pub IsByte : ℕ → Type 0
IsByte b = b < 256

-- One character of the alphabet, not the last of its group.
decode_one :
    (i temp : ℕ) (decoded : List ℕ) (k : ℕ) (input : Text)
    → k < 64
    → i < 3
    → decode_loop i temp decoded (encode_lookup k ∷ input)
      ≡ decode_loop (i + 1) (temp * 64 % word32 + k) decoded input
unfolding decode_loop
decode_one i temp decoded k input h l = rw (sextet-encode_lookup k h, decode_loop) (ground arith)

decode_last :
    (temp : ℕ) (decoded : List ℕ) (k : ℕ) (input : Text)
    → k < 64
    → let t = temp * 64 % word32 + k in
      decode_loop 3 temp decoded (encode_lookup k ∷ input)
      ≡ decode_loop 0 t (decoded ++ t / 2 ^ 16 % 256 ∷ t / 2 ^ 8 % 256 ∷ t % 256 ∷ []) input
unfolding decode_loop
decode_last temp decoded k input h = rw (sextet-encode_lookup k h, decode_loop) refl

shift_in : ℕ → ℕ → ℕ
shift_in temp k = temp * 64 % word32 + k

-- The shifts within 32 bits keep the low 24 bits of four characters.
shift_in-four :
    (temp j k l m : ℕ)
    → j < 64
    → k < 64
    → l < 64
    → m < 64
    → shift_in (shift_in (shift_in (shift_in temp j) k) l) m % 2 ^ 24
      ≡ j * 2 ^ 18 + k * 2 ^ 12 + l * 2 ^ 6 + m
unfolding shift_in
shift_in-four temp j k l m hj hk hl hm = omega arith

shift_in-three :
    (temp j k l : ℕ)
    → j < 64
    → k < 64
    → l < 64
    → shift_in (shift_in (shift_in temp j) k) l * 64 % word32 % 2 ^ 24
      ≡ j * 2 ^ 18 + k * 2 ^ 12 + l * 2 ^ 6
unfolding shift_in
shift_in-three temp j k l hj hk hl = omega arith

shift_in-two :
    (temp j k : ℕ)
    → j < 64
    → k < 64
    → shift_in (shift_in temp j) k * 64 % word32 % 2 ^ 18 ≡ j * 2 ^ 12 + k * 2 ^ 6
unfolding shift_in
shift_in-two temp j k hj hk = omega arith

-- The bytes taken out of such a word.
bytes_of_group :
    (t a b c : ℕ)
    → a < 256
    → b < 256
    → c < 256
    → let w = a * 2 ^ 16 + b * 2 ^ 8 + c in
      t % 2 ^ 24
        ≡ w / 2 ^ 18 % 64 * 2 ^ 18 + w / 2 ^ 12 % 64 * 2 ^ 12 + w / 2 ^ 6 % 64 * 2 ^ 6 + w % 64
      → (t / 2 ^ 16 % 256 ≡ a) × (t / 2 ^ 8 % 256 ≡ b) × (t % 256 ≡ c)
bytes_of_group t a b c ha hb hc e = omega arith

-- Two padding characters, and one.
pad_two :
    (a t : ℕ) (decoded : List ℕ)
    → t * 64 % word32 % 2 ^ 18
      ≡ a * 2 ^ 16 / 2 ^ 18 % 64 * 2 ^ 12 + a * 2 ^ 16 / 2 ^ 12 % 64 * 2 ^ 6
    → a < 256
    → decode_loop 2 t decoded (b'=' ∷ b'=' ∷ []) ≡ ok (decoded ++ a ∷ [])
unfolding decode_loop finish sextet
pad_two a t decoded e h =
    let first : t * 64 % word32 / 2 ^ 10 % 256 ≡ a = omega arith in
    ap (λ x. ok (decoded ++ x ∷ [])) first

pad_one :
    (a b t : ℕ) (decoded : List ℕ)
    → let w = a * 2 ^ 16 + b * 2 ^ 8 in
      t * 64 % word32 % 2 ^ 24
        ≡ w / 2 ^ 18 % 64 * 2 ^ 18 + w / 2 ^ 12 % 64 * 2 ^ 12 + w / 2 ^ 6 % 64 * 2 ^ 6
      → a < 256
      → b < 256
      → decode_loop 3 t decoded (b'=' ∷ []) ≡ ok (decoded ++ a ∷ b ∷ [])
unfolding decode_loop finish sextet
pad_one a b t decoded e ha hb =
    let first : t * 64 % word32 / 2 ^ 16 % 256 ≡ a = omega arith in
    let second : t * 64 % word32 / 2 ^ 8 % 256 ≡ b = omega arith in
    ap₂ (λ x y. ok (decoded ++ x ∷ y ∷ [])) first second

append_three :
    (t a b c : ℕ) (decoded rest : List ℕ)
    → (t / 2 ^ 16 % 256 ≡ a) × (t / 2 ^ 8 % 256 ≡ b) × (t % 256 ≡ c)
    → (decoded ++ t / 2 ^ 16 % 256 ∷ t / 2 ^ 8 % 256 ∷ t % 256 ∷ []) ++ rest
      ≡ decoded ++ a ∷ b ∷ c ∷ rest
append_three t a b c decoded rest h =
    append_assoc decoded (t / 2 ^ 16 % 256 ∷ t / 2 ^ 8 % 256 ∷ t % 256 ∷ []) rest ∙ cc

decode_loop-base64encode :
    (temp : ℕ) (decoded input : List ℕ)
    → All IsByte input
    → decode_loop 0 temp decoded (base64encode input) ≡ ok (decoded ++ input)
unfolding base64encode shift_in
decode_loop-base64encode temp decoded [] h = unfold decode_loop in ap ok (sym (append-nil decoded))
decode_loop-base64encode temp decoded (a ∷ []) h =
    let w = a * 2 ^ 16 in
    decode_one 0 temp decoded (w / 2 ^ 18 % 64) _ (omega arith) (omega arith)
    ∙ decode_one 1 _ decoded (w / 2 ^ 12 % 64) _ (omega arith) (omega arith)
    ∙ pad_two a _ decoded
        (shift_in-two temp (w / 2 ^ 18 % 64) (w / 2 ^ 12 % 64) (omega arith) (omega arith)) h.0
decode_loop-base64encode temp decoded (a ∷ b ∷ []) h =
    let w = a * 2 ^ 16 + b * 2 ^ 8 in
    decode_one 0 temp decoded (w / 2 ^ 18 % 64) _ (omega arith) (omega arith)
    ∙ decode_one 1 _ decoded (w / 2 ^ 12 % 64) _ (omega arith) (omega arith)
    ∙ decode_one 2 _ decoded (w / 2 ^ 6 % 64) _ (omega arith) (omega arith)
    ∙ pad_one a b _ decoded
        (shift_in-three temp (w / 2 ^ 18 % 64) (w / 2 ^ 12 % 64) (w / 2 ^ 6 % 64) (omega arith)
          (omega arith) (omega arith))
        h.0 h.1.0
decode_loop-base64encode temp decoded (a ∷ b ∷ c ∷ input) h =
    let w = a * 2 ^ 16 + b * 2 ^ 8 + c in
    let j = w / 2 ^ 18 % 64 in
    let k = w / 2 ^ 12 % 64 in
    let l = w / 2 ^ 6 % 64 in
    let m = w % 64 in
    let t = shift_in (shift_in (shift_in (shift_in temp j) k) l) m in
    let four = shift_in-four temp j k l m (omega arith) (omega arith) (omega arith) (omega arith) in
    decode_one 0 temp decoded j _ (omega arith) (omega arith)
    ∙ decode_one 1 _ decoded k _ (omega arith) (omega arith)
    ∙ decode_one 2 _ decoded l _ (omega arith) (omega arith)
    ∙ decode_last _ decoded m _ (omega arith)
    ∙ decode_loop-base64encode t _ input h.1.1.1
    ∙ ap ok (append_three t a b c decoded input (bytes_of_group t a b c h.0 h.1.0 h.1.1.0 four))

length-base64encode : (input : List ℕ) → length (base64encode input) % 4 ≡ 0
unfolding base64encode
length-base64encode [] = omega arith
length-base64encode (a ∷ []) = omega arith
length-base64encode (a ∷ b ∷ []) = omega arith
length-base64encode (a ∷ b ∷ c ∷ input) = omega (arith, length-base64encode input)

-- base64decode inverts base64encode on every sequence of bytes, whatever its length: all three
-- paddings included, no error is raised and the bytes come back.
pub base64decode-base64encode :
    (input : List ℕ) → All IsByte input → base64decode (base64encode input) ≡ ok input
unfolding base64decode
base64decode-base64encode input h =
    rw (length-base64encode input) (decode_loop-base64encode 0 [] input h)

-- ===== src/Utils/Serial/RoundTrip.antt =====
-- Serial numbers as texts and as integers: the conversions invert one another.
use native.Mathlib.Nat.{pow-suc}
use wlan_cloud_ucentralfms.Common.{
  ℕ, zero, suc, ◌+◌, ◌*◌, ◌/◌, ◌%◌, ◌^◌, ◌<◌, ◌≡◌, refl, ap, ◌∙◌, some, [], ◌∷◌, arith, length,
  Text, ◌-◌, inl, inr, true, false, ◌++◌, Bool-cases, All, append-nil,
}
use wlan_cloud_ucentralfms.Utils.Hex.{
  hex_digits, hex_char, hex_value-hex_char, IsHex, isxdigit-hex_char, stoull_16-IsHex, in_range,
  hex_value, isxdigit, all_of-IsHex, hex_digits-lt,
}
use wlan_cloud_ucentralfms.Utils.Serial.{
  serial_number_to_int, int_digits, int_to_serial_number, valid_serial_number,
}

-- The digits written for `s` read back as `s`, whatever stands in front and behind.
hex_digits-int_digits :
    (n p s v : ℕ) (b : Text)
    → p ≡ 16 ^ n
    → s < p
    → hex_digits v (int_digits n s b) ≡ hex_digits (v * p + s) b
unfolding int_digits hex_digits
hex_digits-int_digits zero p s v b e h =
    let same : v ≡ v * p + s = omega (arith, ap (λ (t : ℕ). v * t) e) in
    ap (λ w. hex_digits w b) same
hex_digits-int_digits (suc n) p s v b e h =
    let q = 16 ^ n in
    let pq : p ≡ q * 16 = e ∙ pow-suc 16 n in
    let fits : s / 16 < q = omega arith in
    let same : (v * q + s / 16) * 16 + s % 16 ≡ v * p + s =
      omega (arith, ap (λ (t : ℕ). v * t) pq) in
    hex_digits-int_digits n q (s / 16) v (hex_char (s % 16) ∷ b) refl fits
    ∙ rw (hex_value-hex_char (s % 16) (omega arith), hex_digits) (ap (λ w. hex_digits w b) same)

IsHex-int_digits : (n s : ℕ) (b : Text) → IsHex b → IsHex (int_digits n s b)
unfolding int_digits
IsHex-int_digits zero s b h = h
IsHex-int_digits (suc n) s b h =
    IsHex-int_digits n (s / 16) (hex_char (s % 16) ∷ b)
      (isxdigit-hex_char (s % 16) (omega arith), h)

length-int_digits : (n s : ℕ) (b : Text) → length (int_digits n s b) ≡ n + length b
unfolding int_digits
length-int_digits zero s b = omega arith
length-int_digits (suc n) s b = omega (arith, length-int_digits n (s / 16) (hex_char (s % 16) ∷ b))

-- What IntToSerialNumber writes for an integer of 48 bits, SerialNumberToInt reads back.
pub serial_number_to_int-int_to_serial_number :
    (s : ℕ) → s < 2 ^ 48 → serial_number_to_int (int_to_serial_number s) ≡ some s
unfolding serial_number_to_int int_to_serial_number int_digits
serial_number_to_int-int_to_serial_number s h =
    let zero_front : 0 * 2 ^ 48 + s ≡ s = omega arith in
    let value : hex_digits 0 (int_digits 12 s []) ≡ s =
      hex_digits-int_digits 12 (2 ^ 48) s 0 [] refl h ∙ (unfold hex_digits in zero_front) in
    stoull_16-IsHex _ _ (IsHex-int_digits 12 s [] tt) (omega (arith, value)) ∙ ap some value

-- What IntToSerialNumber writes is a valid serial number of twelve characters, for any integer.
pub int_to_serial_number-valid :
    (s : ℕ)
    → (length (int_to_serial_number s) ≡ 12) × (valid_serial_number (int_to_serial_number s) ≡ true)
unfolding int_to_serial_number valid_serial_number
int_to_serial_number-valid s =
    let twelve = length-int_digits 12 s [] in
    (twelve, rw twelve (all_of-IsHex (int_digits 12 s []) (IsHex-int_digits 12 s [] tt)))

-- Lower-case digits survive the way through the integer.
abbrev pub IsLowerHex : Text → Type 0
IsLowerHex = All (λ c. (isxdigit c ≡ true) × (in_range b'A' b'F' c ≡ false))

hex_char-hex_value :
    (c v : ℕ)
    → isxdigit c ≡ true
    → in_range b'A' b'F' c ≡ false
    → (d : ℕ) × (hex_value c ≡ some d)
      × ((v * 16 + d) / 16 ≡ v)
      × (hex_char ((v * 16 + d) % 16) ≡ c)
unfolding isxdigit hex_value hex_char
hex_char-hex_value c v h l = elim (Bool-cases (in_range b'0' b'9' c)) [
  | inl n ↦ (c - b'0', ground arith, ground arith, ground arith)
  | inr n ↦ (c - b'a' + 10, ground arith, ground arith, ground arith)
]

int_digits-hex_digits :
    (n m v : ℕ) (s b : Text)
    → n ≡ m + length s
    → IsLowerHex s
    → int_digits n (hex_digits v s) b ≡ int_digits m v (s ++ b)
unfolding hex_digits
int_digits-hex_digits n m v [] b e h =
    let same : n ≡ m = omega (arith, e) in ap (λ k. int_digits k v b) same
int_digits-hex_digits n m v (c ∷ s) b e h =
    let (d, value, up, down) = hex_char-hex_value c v h.0.0 h.0.1 in
    rw (value, hex_digits)
      (int_digits-hex_digits n (suc m) (v * 16 + d) s b (omega (arith, e)) h.1
        ∙ (unfold int_digits in rw (up, down)))

IsLowerHex-IsHex : (s : Text) → IsLowerHex s → IsHex s
IsLowerHex-IsHex [] h = h
IsLowerHex-IsHex (c ∷ s) h = (h.0.0, IsLowerHex-IsHex s h.1)

-- A serial number of twelve lower-case hexadecimal digits is what its integer is written as.
pub int_to_serial_number-serial_number_to_int :
    (s : Text)
    → length s ≡ 12
    → IsLowerHex s
    → (n : ℕ) × (serial_number_to_int s ≡ some n) × (int_to_serial_number n ≡ s)
unfolding serial_number_to_int int_to_serial_number
int_to_serial_number-serial_number_to_int [] twelve h = absurd (omega arith)
int_to_serial_number-serial_number_to_int (c ∷ s) twelve h =
    let hex = IsLowerHex-IsHex (c ∷ s) h in
    let below = hex_digits-lt (c ∷ s) (2 ^ 48) 0 (rw twelve refl) hex in
    (
      hex_digits 0 (c ∷ s),
      stoull_16-IsHex c s hex (omega (arith, below)),
      int_digits-hex_digits 12 0 0 (c ∷ s) [] (omega (arith, twelve)) h
          ∙ (unfold int_digits in append-nil (c ∷ s)),
    )

-- ===== src/Utils/Hex.antt =====
-- Hexadecimal digits of src/framework/utils.cpp, and std::isxdigit and std::stoull with base 16,
-- which are of the C++ standard library.
use native.Mathlib.Nat.{pow-suc}
use wlan_cloud_ucentralfms.Common.{
  ℕ, ◌+◌, ◌-◌, ◌*◌, ◌%◌, ◌^◌, ◌<◌, ◌≡◌, Bool, true, false, not, ◌&&◌, ◌||◌, Option, none, some, [],
  ◌∷◌, arith, ltb, leb, num_eq, if◌then◌else◌, All, Text, refl, all_of, ◌≤◌, sym, ap, ◌∙◌, inl, inr,
  Bool-cases, length,
}

abbrev pub word64 : ℕ
word64 = 2 ^ 64

abbrev pub in_range : ℕ → ℕ → ℕ → Bool
in_range lo hi c = leb lo c && leb c hi

-- The value of a hexadecimal digit.
unfoldable pub hex_value : ℕ → Option ℕ
hex_value c =
    if in_range b'0' b'9' c
    then some (c - b'0')
    else if in_range b'a' b'f' c
    then some (c - b'a' + 10)
    else if in_range b'A' b'F' c
    then some (c - b'A' + 10)
    else none

unfoldable pub isxdigit : ℕ → Bool
isxdigit c = in_range b'0' b'9' c || in_range b'a' b'f' c || in_range b'A' b'F' c

unfoldable pub isspace : ℕ → Bool
isspace c = num_eq c 32 || in_range 9 13 c

abbrev skip_space : Text → Text
skip_space [] = []
skip_space (c ∷ s) = let rest = skip_space s in if isspace c then rest else c ∷ s

abbrev is_negative : Text → Bool
is_negative [] = false
is_negative (c ∷ s) = num_eq c b'-'

abbrev skip_sign : Text → Text
skip_sign [] = []
skip_sign (c ∷ s) = if num_eq c b'-' || num_eq c b'+' then s else c ∷ s

-- "0x" or "0X" in front of a digit is skipped.
abbrev skip_prefix : Text → Text
skip_prefix (z ∷ x ∷ d ∷ s) =
    if num_eq z b'0' && (num_eq x b'x' || num_eq x b'X') && isxdigit d then d ∷ s else z ∷ x ∷ d ∷ s
skip_prefix s = s

-- The value of the digits in front, on top of `v`.
unfoldable pub hex_digits : ℕ → Text → ℕ
hex_digits v [] = v
hex_digits v (c ∷ s) = elim (hex_value c) [ none ↦ v | some d ↦ hex_digits (v * 16 + d) s ]

abbrev starts_with_digit : Text → Bool
starts_with_digit [] = false
starts_with_digit (c ∷ s) = isxdigit c

-- The value read, or `none` for the exceptions invalid_argument and out_of_range.
unfoldable pub stoull_16 : Text → Option ℕ
stoull_16 s =
    let signed = skip_space s in
    let digits = skip_prefix (skip_sign signed) in
    let v = hex_digits 0 digits in
    if not (starts_with_digit digits) || leb word64 v
    then none
    else some (if is_negative signed then (word64 - v) % word64 else v)

-- The digit for a value below 16, as IntToSerialNumber writes it.
unfoldable pub hex_char : ℕ → ℕ
hex_char b = if ltb b 10 then b + b'0' else b - 10 + b'a'

pub hex_value-hex_char : (b : ℕ) → b < 16 → hex_value (hex_char b) ≡ some b
unfolding hex_value hex_char
hex_value-hex_char b h = ground arith

abbrev pub IsHex : Text → Type 0
IsHex = All (λ c. isxdigit c ≡ true)

pub isxdigit-hex_char : (b : ℕ) → b < 16 → isxdigit (hex_char b) ≡ true
unfolding isxdigit hex_char
isxdigit-hex_char b h = ground arith

isxdigit-not_skipped :
    (c : ℕ)
    → isxdigit c ≡ true
    → (isspace c ≡ false)
      × ((num_eq c b'-' || num_eq c b'+') ≡ false)
      × (num_eq c b'-' ≡ false)
      × ((num_eq c b'x' || num_eq c b'X') ≡ false)
unfolding isxdigit isspace
isxdigit-not_skipped c h = ground arith

skip_prefix-IsHex : (s : Text) → IsHex s → skip_prefix s ≡ s
skip_prefix-IsHex [] h = refl
skip_prefix-IsHex (c ∷ []) h = refl
skip_prefix-IsHex (c ∷ d ∷ []) h = refl
skip_prefix-IsHex (c ∷ d ∷ e ∷ s) h = ground (arith, isxdigit-not_skipped d)

-- A text of digits alone has neither space, sign nor prefix to skip.
pub stoull_16-IsHex :
    (c : ℕ) (s : Text)
    → IsHex (c ∷ s)
    → hex_digits 0 (c ∷ s) < word64
    → stoull_16 (c ∷ s) ≡ some (hex_digits 0 (c ∷ s))
unfolding stoull_16
stoull_16-IsHex c s h fits =
    let plain = isxdigit-not_skipped c h.0 in
    rw (plain.0, plain.1, plain.2, skip_prefix-IsHex (c ∷ s) h) (ground arith)

pub all_of-IsHex : (s : Text) → IsHex s → all_of isxdigit s ≡ true
all_of-IsHex [] h = refl
all_of-IsHex (c ∷ s) h = ground (arith, all_of-IsHex s h.1)

pub hex_value-lt : (c : ℕ) → isxdigit c ≡ true → (d : ℕ) × (hex_value c ≡ some d) × (d < 16)
unfolding isxdigit hex_value
hex_value-lt c h = elim (Bool-cases (in_range b'0' b'9' c)) [
  | inl n ↦ (c - b'0', ground arith, ground arith)
  | inr n ↦ elim (Bool-cases (in_range b'a' b'f' c)) [
    | inl l ↦ (c - b'a' + 10, ground arith, ground arith)
    | inr l ↦ (c - b'A' + 10, ground arith, ground arith)
  ]
]

hex_digits-step : (v d p q n : ℕ) → p ≡ q * 16 → d < 16 → n < (v * 16 + d) * q + q → n < v * p + p
hex_digits-step v d p q n e small h =
    let room : (d + 1) * q ≤ 16 * q = grind arith in omega (arith, ap (λ (t : ℕ). v * t) e, room)

pub hex_digits-lt : (s : Text) (p v : ℕ) → 16 ^ length s ≡ p → IsHex s → hex_digits v s < v * p + p
unfolding hex_digits
hex_digits-lt [] p v e h = omega (arith, ap (λ (t : ℕ). v * t) e)
hex_digits-lt (c ∷ s) p v e h =
    let (d, value, small) = hex_value-lt c h.0 in
    let q = 16 ^ length s in
    let pq : p ≡ q * 16 = sym e ∙ pow-suc 16 (length s) in
    let rest = hex_digits-lt s q (v * 16 + d) refl h.1 in
    rw (value, hex_digits) (hex_digits-step v d p q (hex_digits (v * 16 + d) s) pq small rest)

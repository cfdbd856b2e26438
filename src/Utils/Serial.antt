-- ===== src/Utils/Serial.antt =====
-- Serial numbers and MAC addresses of src/framework/utils.cpp.
pub mod RoundTrip
pub mod Mac
use wlan_cloud_ucentralfms.Common.{
  ℕ, zero, suc, ◌+◌, ◌-◌, ◌*◌, ◌/◌, ◌%◌, ◌^◌, Bool, true, false, ◌&&◌, ◌||◌, Option, none, some,
  List, [], ◌∷◌, ◌++◌, ltb, num_eq, if◌then◌else◌, length, get_or, take, replicate, all_of, Text,
}
use wlan_cloud_ucentralfms.Utils.Hex.{word64, hex_value, isxdigit, stoull_16, hex_char}

abbrev pub serial_number_length : ℕ
serial_number_length = 30

unfoldable pub valid_serial_number : Text → Bool
valid_serial_number serial = ltb (length serial) serial_number_length && all_of isxdigit serial

unfoldable pub valid_serial_numbers : List Text → Bool
valid_serial_numbers numbers = all_of valid_serial_number numbers

unfoldable pub count_dashes : Text → ℕ
count_dashes [] = 0
count_dashes (c ∷ s) = let rest = count_dashes s in if num_eq c b'-' then rest + 1 else rest

unfoldable pub valid_uuid : Text → Bool
valid_uuid uuid =
    if ltb 36 (length uuid)
    then false
    else all_of (λ c. num_eq c b'-' || isxdigit c) uuid && ltb 0 (count_dashes uuid)

-- str.append(num - str.length() % num, paddingChar)
unfoldable pub pad_to : Text → ℕ → ℕ → Text
pad_to str num padding_char = str ++ replicate (num - length str % num) padding_char

-- The twelve characters that SerialToMAC writes in pairs.
unfoldable pub mac_digits : Text → Text
unfolding pad_to
mac_digits serial =
    if ltb (length serial) 12
    then pad_to serial 12 b'0'
    else if ltb 12 (length serial)
    then take 12 serial
    else serial

abbrev pub pair_at : Text → ℕ → Text
pair_at r i = get_or r i 0 ∷ get_or r (i + 1) 0 ∷ []

unfoldable pub serial_to_mac : Text → Text
unfolding mac_digits
serial_to_mac serial =
    let r = mac_digits serial in
    pair_at r 0
    ++ b':'
      ∷ (pair_at r 2
          ++ b':'
            ∷ (pair_at r 4 ++ b':' ∷ (pair_at r 6 ++ b':' ∷ (pair_at r 8 ++ b':' ∷ pair_at r 10))))

-- What a character other than a colon adds to the shifted result: nothing if it is no digit.
abbrev pub digit_or_zero : ℕ → ℕ
digit_or_zero c = elim (hex_value c) [ none ↦ 0 | some d ↦ d ]

-- The loop of MACToInt, with the wrap-around of uint64_t.
unfoldable pub mac_loop : ℕ → Text → ℕ
mac_loop result [] = result
mac_loop result (c ∷ mac) =
    mac_loop (if num_eq c b':' then result else (result * 16 % word64 + digit_or_zero c) % word64)
      mac

unfoldable pub mac_to_int : Text → ℕ
unfolding mac_loop
mac_to_int mac = mac_loop 0 mac

unfoldable pub serial_number_to_int : Text → Option ℕ
serial_number_to_int s = stoull_16 s

-- for (i = 0; i < 12; ++i) { b[11 - i] = digit(S & 0x0f); S >>= 4; } from the last place to the first.
unfoldable pub int_digits : ℕ → ℕ → Text → Text
int_digits zero s b = b
int_digits (suc i) s b = int_digits i (s / 16) (hex_char (s % 16) ∷ b)

unfoldable pub int_to_serial_number : ℕ → Text
int_to_serial_number s = int_digits 12 s []

-- Both conversions may throw.
unfoldable pub serial_number_match : Text → Text → ℕ → Option Bool
serial_number_match s1 s2 bits = elim (serial_number_to_int s1) [
  | none ↦ none
  | some i1 ↦ elim (serial_number_to_int s2) [
    | none ↦ none
    | some i2 ↦ some (num_eq (i1 / 2 ^ bits) (i2 / 2 ^ bits))
  ]
]

-- The loop of SerialNumberToOUI: it stops after six digits.
unfoldable pub oui_loop : ℕ → ℕ → Text → ℕ
oui_loop result zero s = result
oui_loop result (suc left) [] = result
oui_loop result (suc left) (c ∷ s) = elim (isxdigit c) [
  | true ↦ oui_loop ((result * 16 % word64 + digit_or_zero c) % word64) left s
  | false ↦ oui_loop result (suc left) s
]

unfoldable pub serial_number_to_oui : Text → ℕ
unfolding oui_loop
serial_number_to_oui s = oui_loop 0 6 s

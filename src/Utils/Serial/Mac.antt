-- ===== src/Utils/Serial/Mac.antt =====
-- MAC addresses made of serial numbers.
use native.Mathlib.Nat.{pow-suc}
use wlan_cloud_ucentralfms.Common.{
  ℕ, ◌+◌, ◌*◌, ◌%◌, ◌^◌, ◌≤◌, ◌<◌, ◌≡◌, refl, sym, ap, ◌∙◌, true, false, some, [], ◌∷◌, arith,
  num_eq, length, Text,
}
use wlan_cloud_ucentralfms.Utils.Hex.{
  word64, isxdigit, hex_digits, IsHex, stoull_16-IsHex, hex_value-lt, hex_digits-lt,
}
use wlan_cloud_ucentralfms.Utils.Serial.{
  serial_to_mac, digit_or_zero, mac_loop, mac_to_int, serial_number_to_int,
}

step_fits :
    (v d p q : ℕ)
    → p ≡ q * 16
    → d < 16
    → 0 < q
    → v * p + p ≤ word64
    → ((v * 16 % word64 + d) % word64 ≡ v * 16 + d) × ((v * 16 + d) * q + q ≤ word64)
step_fits v d p q e small pos fits =
    let room : (d + 1) * q ≤ 16 * q = grind arith in
    let all : (v * 16 + d) * q + q ≤ word64 = omega (arith, ap (λ (t : ℕ). v * t) e, room) in
    let one : v * 16 + d < word64 = grind arith in (omega arith, all)

pow-pos : (s : Text) → 0 < 16 ^ length s
pow-pos [] = omega arith
pow-pos (c ∷ s) = omega (arith, pow-suc 16 (length s), pow-pos s)

digit-not_colon : (c : ℕ) → isxdigit c ≡ true → num_eq c b':' ≡ false
unfolding isxdigit
digit-not_colon c h = ground arith

-- Within 64 bits the loop of MACToInt reads digits as SerialNumberToInt does.
mac_loop-hex_digits :
    (s : Text) (p v : ℕ)
    → 16 ^ length s ≡ p
    → v * p + p ≤ word64
    → IsHex s
    → mac_loop v s ≡ hex_digits v s
unfolding mac_loop hex_digits
mac_loop-hex_digits [] p v e fits h = refl
mac_loop-hex_digits (c ∷ s) p v e fits h =
    let (d, value, small) = hex_value-lt c h.0 in
    let q = 16 ^ length s in
    let pq : p ≡ q * 16 = sym e ∙ pow-suc 16 (length s) in
    let room = step_fits v d p q pq small (pow-pos s) fits in
    rw (digit-not_colon c h.0, mac_loop)
      (rw (value, hex_digits, digit_or_zero, mac_loop)
        (ap (λ w. mac_loop w s) room.0 ∙ mac_loop-hex_digits s q (v * 16 + d) refl room.1 h.1))

-- A colon in front of each later pair is passed over.
mac_loop-serial_to_mac : (s : Text) → length s ≡ 12 → mac_to_int (serial_to_mac s) ≡ mac_loop 0 s
unfolding mac_to_int mac_loop serial_to_mac
mac_loop-serial_to_mac (a ∷ b ∷ c ∷ d ∷ e ∷ f ∷ g ∷ h ∷ i ∷ j ∷ k ∷ l ∷ []) twelve = refl
mac_loop-serial_to_mac s twelve = absurd (omega arith)

-- For a serial number of twelve hexadecimal digits the MAC address has the integer of the serial
-- number.
pub mac_to_int-serial_to_mac :
    (s : Text)
    → length s ≡ 12
    → IsHex s
    → serial_number_to_int s ≡ some (mac_to_int (serial_to_mac s))
unfolding serial_number_to_int
mac_to_int-serial_to_mac [] twelve h = absurd (omega arith)
mac_to_int-serial_to_mac (c ∷ s) twelve h =
    let below = hex_digits-lt (c ∷ s) (2 ^ 48) 0 (rw twelve refl) h in
    let same =
      mac_loop-serial_to_mac (c ∷ s) twelve
      ∙ mac_loop-hex_digits (c ∷ s) (2 ^ 48) 0 (rw twelve refl) (omega arith) h in
    rw same (stoull_16-IsHex c s h (omega (arith, below)))

-- ===== src/Common/Decimal.antt =====
-- std::to_string of an unsigned number, and the reading of a decimal.
use Prim.Native.Nat.{ℕ, zero, suc, ◌+◌, ◌-◌, ◌*◌, ◌/◌, ◌%◌, ◌^◌, ◌<◌}
use native.Mathlib.Nat.{pow-suc}
use native.Mathlib.Omega.{arith}
use mathlib.Core.Path.{◌≡◌, refl, ap, ◌∙◌}
use mathlib.Core.Logic.{inl, inr}
use mathlib.Core.List.{[], ◌∷◌}
use wlan_cloud_ucentralfms.Common.Tests.{ltb, if◌then◌else◌, Bool-cases}
use wlan_cloud_ucentralfms.Common.Texts.{Text}

-- The digits of `n` in front of `acc`; twenty rounds are enough for 64 bits.
unfoldable pub decimal_digits : ℕ → ℕ → Text → Text
decimal_digits zero n acc = acc
decimal_digits (suc fuel) n acc =
    let d = n % 10 + b'0' in
    let rest = decimal_digits fuel (n / 10) (d ∷ acc) in if ltb n 10 then d ∷ acc else rest

unfoldable pub to_string : ℕ → Text
unfolding decimal_digits
to_string n = decimal_digits 20 n []

-- The number that a text of decimal digits stands for, on top of `v`.
unfoldable pub decimal_value : ℕ → Text → ℕ
decimal_value v [] = v
decimal_value v (c ∷ s) = decimal_value (v * 10 + (c - b'0')) s

decimal_value-digits :
    (fuel p n : ℕ) (acc : Text)
    → 10 ^ fuel ≡ p
    → n < p
    → decimal_value 0 (decimal_digits fuel n acc) ≡ decimal_value n acc
unfolding decimal_digits decimal_value
decimal_value-digits zero p n acc e h =
    let same : 0 ≡ n = omega (arith, e) in ap (λ k. decimal_value k acc) same
decimal_value-digits (suc fuel) p n acc e h =
    let q = 10 ^ fuel in
    let fits : n / 10 < q = omega (arith, e, pow-suc 10 fuel) in
    let small : 0 * 10 + (n % 10 + b'0' - b'0') ≡ n % 10 = omega arith in
    let whole : n / 10 * 10 + (n % 10 + b'0' - b'0') ≡ n = omega arith in
    elim (Bool-cases (ltb n 10)) [
      | inl t ↦ rw t (
          let last : 0 * 10 + (n % 10 + b'0' - b'0') ≡ n = ground arith in
          ap (λ k. decimal_value k acc) last)
      | inr f ↦ rw f (
          decimal_value-digits fuel q (n / 10) ((n % 10 + b'0') ∷ acc) refl fits
          ∙ ap (λ k. decimal_value k acc) whole)
    ]

-- A printed number of 64 bits reads back.
pub decimal_value-to_string : (n : ℕ) → n < 2 ^ 64 → decimal_value 0 (to_string n) ≡ n
unfolding to_string decimal_value
decimal_value-to_string n h = decimal_value-digits 20 (10 ^ 20) n [] refl (omega arith)

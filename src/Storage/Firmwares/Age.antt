-- ===== src/Storage/Firmwares/Age.antt =====
-- What ComputeFirmwareAge says.
use wlan_cloud_ucentralfms.Common.{
  ◌+◌, ◌-◌, ◌<◌, ◌≡◌, refl, sym, ap, ◌∙◌, ◌↔◌, inl, inr, none, some, arith, Option-cases, Text,
  text_eq,
}
use wlan_cloud_ucentralfms.FmsObjects.{Firmware, FirmwareAgeDetails}
use wlan_cloud_ucentralfms.LatestFirmwareCache.{LatestFirmwareCacheEntry, find_latest_firmware}
use wlan_cloud_ucentralfms.Service.{Env, State, word64}
use wlan_cloud_ucentralfms.Storage.Firmwares.{
  get_firmware, get_firmware_by_revision, age_details, compute_firmware_age,
}
use mathlib.Core.Option.{some-injective, none-ne-some}

module _ (env : Env) (device_type revision : Text) (s : State env) where
  details :
      (entry : LatestFirmwareCacheEntry) (newest : Firmware)
      → find_latest_firmware device_type s.latest_cache ≡ some entry
      → get_firmware env entry.id s ≡ some newest
      → compute_firmware_age env device_type revision s
        ≡ some
            (age_details env revision (get_firmware_by_revision env revision device_type s) newest)
  unfolding compute_firmware_age get_firmware_by_revision text_eq
  details entry newest cached there = rw (compute_firmware_age, cached, there) refl

  -- ComputeFirmwareAge when the cache has an entry of the device type, its firmware is in the table,
  -- and a firmware of the asked revision is too, with a newer image: the age wraps around at 64 bits.
  pub compute_firmware_age-newer :
      (entry : LatestFirmwareCacheEntry) (newest asked : Firmware)
      → find_latest_firmware device_type s.latest_cache ≡ some entry
      → get_firmware env entry.id s ≡ some newest
      → get_firmware_by_revision env revision device_type s ≡ some asked
      → asked.image_date < word64
      → newest.image_date < asked.image_date
      → (a : FirmwareAgeDetails) × (compute_firmware_age env device_type revision s ≡ some a)
        × (a.age + (asked.image_date - newest.image_date) ≡ word64)
  compute_firmware_age-newer entry newest asked cached there found range newer = (
    age_details env revision (some asked) newest,
    details entry newest cached there ∙ ap (λ o. some (age_details env revision o newest)) found,
    omega arith,
  )

  -- ComputeFirmwareAge gives no details exactly when the cache has no entry of the device type, or
  -- the table does not give the firmware of the entry.
  pub compute_firmware_age-none : (compute_firmware_age env device_type revision s ≡ none) ↔ (
      (entry : LatestFirmwareCacheEntry)
      → find_latest_firmware device_type s.latest_cache ≡ some entry
      → get_firmware env entry.id s ≡ none)
  unfolding compute_firmware_age
  compute_firmware_age-none =
      elim (Option-cases (find_latest_firmware device_type s.latest_cache)) [
        | inl missing ↦ (
          λ h entry found. absurd (none-ne-some _ (sym missing ∙ found)),
          λ h. rw (compute_firmware_age, missing) refl,
        )
        | inr cached ↦ elim (Option-cases (get_firmware env cached.0.id s)) [
          | inl missing ↦ (
            λ h entry found.
                ap (λ (x : LatestFirmwareCacheEntry). get_firmware env x.id s)
                  (some-injective entry cached.0 (sym found ∙ cached.1))
                ∙ missing,
            λ h. rw (compute_firmware_age, cached.1, missing) refl,
          )
          | inr there ↦ (
            λ h. absurd (none-ne-some _ (sym h ∙ details cached.0 there.0 cached.1 there.1)),
            λ h. absurd (none-ne-some _ (sym (h cached.0 cached.1) ∙ there.1)),
          )
        ]
      ]

-- ===== src/AutoUpdater/Settings.antt =====
-- When the timer uses the settings that it keeps, and what it does then.
use wlan_cloud_ucentralfms.Common.{
  ℕ, ◌+◌, ◌≤◌, ◌<◌, ◌≡◌, refl, ◌∙◌, false, not, Option, some, [], ◌∷◌, ◌++◌, append-nil, arith,
  num_eq_iff, num_Eq, ◌==◌, Text, codes, text_eq, text_Eq, lookup,
}
use wlan_cloud_ucentralfms.FmsObjects.{Firmware}
use wlan_cloud_ucentralfms.LatestFirmwareCache.{LatestFirmwareCacheEntry, find_latest_firmware}
use wlan_cloud_ucentralfms.Storage.Firmwares.{get_firmware}
use wlan_cloud_ucentralfms.AutoUpdater.{
  Answer, get_firmware_options, SerialCache, Updater, needs_check, latest_details, upgrade, process,
  found,
}
use wlan_cloud_ucentralfms.Service.{Env, State, word64}

-- Settings that were checked in the past, at a time that is not within 300 seconds of 2^64: the
-- subtraction in the test is the wrong way round and wraps, so that they are used only in the very
-- second of their check, and not for the five minutes of the constant.
pub needs_check-same_second :
    (now : ℕ) (c : SerialCache)
    → c.last_check ≤ now
    → now + 300 < word64
    → needs_check now (some c) ≡ not (c.last_check == now)
unfolding needs_check
needs_check-same_second now c past range = ground arith

module _ (env : Env) (s : State env) (clock : ℕ → ℕ) (provisioning : ℕ → Text → Answer) where
  -- A device with an entry of the second of its check that keeps the option "no", at a time that is
  -- not within 300 seconds of 2^64, whose type has a latest firmware in the table, and for which the
  -- provisioning service still answers "no": the turn sends it the command for that firmware all the
  -- same, as it does not look at the kept option. Without the entry it would send nothing.
  pub process-kept :
      (serial_number device_type : Text) (u : Updater) (c : SerialCache)
      (e : LatestFirmwareCacheEntry) (f : Firmware) (rc_only : Option Text)
      → lookup serial_number u.cache ≡ some c
      → c.last_check ≡ clock u.turn
      → clock u.turn + 300 < word64
      → c.firmware_upgrade ≡ codes "no"
      → find_latest_firmware device_type s.latest_cache ≡ some e
      → get_firmware env e.id s ≡ some f
      → provisioning u.turn serial_number ≡ found (some (codes "no")) rc_only
      → ((process env s clock provisioning (serial_number, device_type) u).commands
          ≡ u.commands ++ (serial_number, f.uri) ∷ [])
        × ((process env s clock provisioning
              (serial_number, device_type)
              (record u { cache = [] })).commands
            ≡ u.commands)
  unfolding process upgrade text_eq needs_check lookup get_firmware_options
  process-kept serial_number device_type u c e f rc_only kept same_time range no_upgrade latest
        stored still_no =
      let not_needed : needs_check (clock u.turn) (some c) ≡ false =
        needs_check-same_second (clock u.turn) c (omega (arith, same_time)) range
        ∙ rw (same_time, (num_eq_iff (clock u.turn) (clock u.turn)).1 refl) refl in
      (
        rw (kept, not_needed, latest, latest_details, stored) refl,
        rw still_no (append-nil u.commands),
      )

-- ===== src/ServiceModel/Updates.antt =====
-- The timer of the automatic upgrades on the concrete service.
use wlan_cloud_ucentralfms.AutoUpdater.{
  Answer, SerialCache, Updater, needs_check, process, on_timer, found, refused,
}
use wlan_cloud_ucentralfms.AutoUpdater.Settings.{needs_check-same_second, process-kept}
use wlan_cloud_ucentralfms.AutoUpdater.Upgrades.{upgrades, Distinct, Uncached, on_timer-commands}
use wlan_cloud_ucentralfms.Common.{
  ℕ, ◌≡◌, refl, ◌≢◌, true, false, not, none, some, [], ◌∷◌, ◌++◌, arith, num_eq, if◌then◌else◌,
  num_Eq, ◌==◌, Text, codes, text_eq, text_eq_iff, text_Eq, lookup,
}
use wlan_cloud_ucentralfms.FmsObjects.{Firmware, firmware_of_tuple, firmware_convert}
use wlan_cloud_ucentralfms.LatestFirmwareCache.{find_latest_firmware}
use wlan_cloud_ucentralfms.ServiceModel.{env_model, new_row, new_entry, cached}
use wlan_cloud_ucentralfms.Storage.Firmwares.{convert, get_firmware}
use wlan_cloud_ucentralfms.Orm.Engine.{get_record}
use mathlib.Core.Bool.{false≢true}

-- The clock stands, the first device may be upgraded, and the second may not.
abbrev clock : ℕ → ℕ
clock n = 1000

abbrev answers : ℕ → Text → Answer
answers n serial = if serial == codes "aa" then found (some (codes "yes")) none else refused

abbrev waiting : Updater
waiting = record {
  running = true;
  enabled = true;
  cache = [];
  queue = (codes "aa", codes "ap") ∷ (codes "bb", codes "ap") ∷ [];
  turn = 0;
  commands = [];
}

abbrev asked_no : SerialCache
asked_no = record { last_check = 1000; firmware_upgrade = codes "no"; firmware_rc_only = false }

-- "bb" was asked for a second ago, and stands in the queue again.
abbrev kept : Updater
kept = record waiting { cache = (codes "bb", asked_no) ∷ []; queue = [] }

apart : codes "aa" ≢ codes "bb"
unfolding text_eq
apart e = false≢true ((text_eq_iff (codes "aa") (codes "bb")).1 e)

on_timer-commands_example :
    (on_timer env_model (cached new_entry) clock answers 2 waiting).commands
    ≡ [] ++ upgrades env_model (cached new_entry) clock answers 0 waiting.queue
unfolding Distinct Uncached lookup
on_timer-commands_example =
    on_timer-commands env_model (cached new_entry) clock answers 2 waiting (omega arith)
      ((apart, tt), (tt, tt)) (refl, (refl, tt))

needs_check-same_second_example : needs_check 1010 (some asked_no) ≡ not (num_eq 1000 1010)
needs_check-same_second_example = needs_check-same_second 1010 asked_no (omega arith) (omega arith)

abbrev still_no : ℕ → Text → Answer
still_no n serial = found (some (codes "no")) none

abbrev new_firmware : Firmware
new_firmware = firmware_of_tuple (λ l. []) (λ t. []) new_row

process-kept_example :
    ((process env_model (cached new_entry) clock still_no (codes "bb", codes "ap") kept).commands
      ≡ [] ++ (codes "bb", new_firmware.uri) ∷ [])
    × ((process env_model
          (cached new_entry)
          clock
          still_no
          (codes "bb", codes "ap")
          (record kept { cache = [] })).commands
        ≡ [])
unfolding lookup text_eq find_latest_firmware get_firmware get_record convert firmware_convert
    firmware_of_tuple
process-kept_example =
    process-kept env_model (cached new_entry) clock still_no (codes "bb") (codes "ap") kept asked_no
      new_entry new_firmware none refl refl (omega arith) refl refl refl refl

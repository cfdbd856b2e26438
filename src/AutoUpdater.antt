-- ===== src/AutoUpdater.antt =====
-- src/AutoUpdater.{h,cpp}: the queue of the devices to upgrade, and the timer that empties it. The
-- timer holds the mutex while it runs, so that the queue does not grow meanwhile. Tables and cache of
-- firmwares are those of one state of the service.
pub mod Turns
pub mod Upgrades
pub mod Settings
use wlan_cloud_ucentralfms.Common.{
  ℕ, zero, suc, ◌+◌, Bool, true, false, Option, none, some, List, [], ◌∷◌, ◌++◌, ltb, if◌then◌else◌,
  ◌==◌, num_Eq, Text, codes, text_Eq, Map, lookup, insert,
}
use wlan_cloud_ucentralfms.FmsObjects.{Firmware}
use wlan_cloud_ucentralfms.LatestFirmwareCache.{LatestFirmwareCacheEntry, find_latest_firmware}
use wlan_cloud_ucentralfms.Service.{Env, State, sub64}
use wlan_cloud_ucentralfms.Storage.Firmwares.{get_firmware}

-- What the provisioning service answers for a device: the two options when they are there, another
-- status than 200, or an exception.
pub data Answer : Type 0 where
  found : Option Text → Option Text → Answer
  refused : Answer
  failed : Answer

abbrev pub or_default : Text → Option Text → Text
or_default d none = d
or_default d (some t) = t

abbrev pub is_true : Option Text → Bool
is_true none = false
is_true (some t) = t == codes "true"

-- SDK::Prov::GetFirmwareOptions (src/SDK/Prov_SDK.cpp): the result, and the two out parameters.
-- `none` is an exception of the request.
unfoldable pub get_firmware_options : Answer → Option (Bool × Text × Bool)
get_firmware_options (found firmware_upgrade rc_only) =
    some (true, or_default (codes "no") firmware_upgrade, is_true rc_only)
get_firmware_options refused = some (false, codes "no", false)
get_firmware_options failed = none

pub record SerialCache : Type 0 where
  pub last_check : ℕ
  pub firmware_upgrade : Text
  pub firmware_rc_only : Bool

-- The turns count the entries taken since the start: they number the readings of the clock and the
-- answers. The commands are the requests of SDK::GW::SendFirmwareUpgradeCommand, the oldest first.
pub record Updater : Type 0 where
  pub running : Bool
  pub enabled : Bool
  pub cache : Map SerialCache
  pub queue : List (Text × Text)
  pub turn : ℕ
  pub commands : List (Text × Text)

unfoldable pub to_be_upgraded : Text → Text → Updater → Updater
to_be_upgraded serial_number device_type u =
    if u.enabled then record u { queue = u.queue ++ ((serial_number, device_type) ∷ []) } else u

unfoldable pub reset : Updater → Updater
reset u = record u { cache = []; queue = [] }

-- CacheEntry == end() || (LastCheck - now) > 300, on uint64_t
unfoldable pub needs_check : ℕ → Option SerialCache → Bool
needs_check now none = true
needs_check now (some c) = ltb 300 (sub64 c.last_check now)

module _ (env : Env) (s : State env) where
  -- The command for a device, when the type has a latest firmware and the table has it.
  abbrev pub command_for : Text → Option Firmware → List (Text × Text)
  command_for serial_number none = []
  command_for serial_number (some f) = (serial_number, f.uri) ∷ []

  abbrev pub latest_details : Option LatestFirmwareCacheEntry → Option Firmware
  latest_details none = none
  latest_details (some e) = get_firmware env e.id s

  -- The commands of a turn after the settings are known.
  unfoldable pub upgrade : Text → Text → Text → List (Text × Text)
  upgrade serial_number device_type firmware_upgrade =
      if firmware_upgrade == codes "no"
      then []
      else command_for serial_number
          (latest_details (find_latest_firmware device_type s.latest_cache))

  module _ (clock : ℕ → ℕ) (provisioning : ℕ → Text → Answer) where
    -- With settings that were just fetched; an exception ends the turn.
    abbrev pub checked : Text → Text → Option (Bool × Text × Bool) → Updater → Updater
    checked serial_number device_type none u = u
    checked serial_number device_type (some (ok, firmware_upgrade, rc_only)) u = record u {
      cache =
          insert serial_number
            (record {
              last_check = clock u.turn;
              firmware_upgrade = firmware_upgrade;
              firmware_rc_only = rc_only;
            })
            u.cache;
      commands = u.commands ++ upgrade serial_number device_type firmware_upgrade;
    }

    -- With a settings entry that is still good, the local firmwareUpgrade stays empty.
    abbrev pub handled : Text → Text → Updater → Updater
    handled serial_number device_type u =
        if needs_check (clock u.turn) (lookup serial_number u.cache)
        then checked serial_number device_type
            (get_firmware_options (provisioning u.turn serial_number)) u
        else record u { commands = u.commands ++ upgrade serial_number device_type [] }

    -- One turn of the loop of onTimer.
    unfoldable pub process : Text × Text → Updater → Updater
    process (serial_number, device_type) u =
        let u' = handled serial_number device_type u in record u' { turn = u'.turn + 1 }

    -- The loop of onTimer, when Stop clears Running_ after the given number of turns.
    unfoldable pub turns : ℕ → List (Text × Text) → Updater → Updater
    turns n [] u = record u { queue = [] }
    turns zero (e ∷ q) u = record u { running = false; queue = e ∷ q }
    turns (suc n) (e ∷ q) u = turns n q (process e u)

    unfoldable pub on_timer : ℕ → Updater → Updater
    on_timer n u = turns n u.queue (record u { running = true })

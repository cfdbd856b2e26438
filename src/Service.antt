-- ===== src/Service.antt =====
-- The surroundings of the service's singletons, and the state that they keep.
use wlan_cloud_ucentralfms.Common.{ℕ, ◌+◌, ◌-◌, ◌%◌, ◌^◌, List, Text}
use wlan_cloud_ucentralfms.Poco.{Poco}
use wlan_cloud_ucentralfms.FmsObjects.{
  NoteInfo, FirmwareRow, RevisionHistoryEntry, DeviceConnectionInformation,
}
use wlan_cloud_ucentralfms.LatestFirmwareCache.{LatestFirmwareCache}
use wlan_cloud_ucentralfms.Orm.Engine.{Engine}

-- What the service is given: Poco, the database engines of its three tables, the texts of notes in
-- JSON, and the UUIDs that MicroServiceCreateUUID makes, by the count of those made before.
pub record Env : Type 1 where
  pub poco : Poco
  pub firmware_engine : Engine FirmwareRow
  pub device_engine : Engine DeviceConnectionInformation
  pub history_engine : Engine RevisionHistoryEntry
  pub notes_to_text : List NoteInfo → Text
  pub notes_of_text : Text → List NoteInfo
  pub create_uuid : ℕ → Text

-- The three tables, LatestFirmwareCache, the clock that Utils::Now reads in seconds, and the count of
-- UUIDs.
pub record State (env : Env) : Type 0 where
  pub firmwares : env.firmware_engine.Db
  pub devices : env.device_engine.Db
  pub history : env.history_engine.Db
  pub latest_cache : LatestFirmwareCache
  pub now : ℕ
  pub uuids : ℕ

abbrev pub word64 : ℕ
word64 = 2 ^ 64

-- a - b on uint64_t
abbrev pub sub64 : ℕ → ℕ → ℕ
sub64 a b = (a + word64 - b) % word64

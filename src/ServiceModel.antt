-- ===== src/ServiceModel.antt =====
-- A concrete service for tests and witnesses: list engines for the three tables, notes that are not
-- kept as text, and UUIDs that count.
mod Firmwares
mod Devices
mod Updates
mod Requests
mod Refresh
mod Access
mod Bus
use wlan_cloud_ucentralfms.Common.{
  ℕ, ◌≡◌, refl, sym, ap, Bool, true, false, ◌&&◌, ◌||◌, [], ◌∷◌, ◌++◌, if◌then◌else◌, num_Eq, ◌==◌,
  Text, codes, text_eq, text_eq_iff, text_Eq, is_empty, to_string,
}
use wlan_cloud_ucentralfms.FmsObjects.{
  Firmware, FirmwareRow, RevisionHistoryEntry, DeviceConnectionInformation,
}
use wlan_cloud_ucentralfms.LatestFirmwareCache.{LatestFirmwareCacheEntry, empty_cache}
use wlan_cloud_ucentralfms.Storage.Firmwares.{latest_clause, revision_clause}
use wlan_cloud_ucentralfms.Storage.History.{serial_clause}
use mathlib.Core.List.{append_cancel_left, append_cancel_right}
use mathlib.Core.Bool.{false≢true}
use wlan_cloud_ucentralfms.PocoModel.{poco_model}
use wlan_cloud_ucentralfms.Orm.Engine.Model.{list_engine}
use wlan_cloud_ucentralfms.Service.{Env, State}
use wlan_cloud_ucentralfms.Storage.Firmwares.Latest.{ReadsFirmwares}

abbrev pub firmware_column : Text → FirmwareRow → Text
firmware_column f t = if f == codes "id" then t.id else []

abbrev pub firmware_holds : Text → FirmwareRow → Bool
firmware_holds w t =
    is_empty w
    || (w == revision_clause t.revision t.device_type
        || (w == latest_clause t.device_type && t.latest))

abbrev pub device_column : Text → DeviceConnectionInformation → Text
device_column f t = if f == codes "serialNumber" then t.serial_number else []

abbrev pub device_holds : Text → DeviceConnectionInformation → Bool
device_holds w t = is_empty w

abbrev pub history_column : Text → RevisionHistoryEntry → Text
history_column f t = if f == codes "id" then t.id else []

abbrev pub history_holds : Text → RevisionHistoryEntry → Bool
history_holds w t = w == serial_clause t.serial_number

abbrev pub env_model : Env
env_model = record {
  poco = poco_model;
  firmware_engine = list_engine firmware_column firmware_holds;
  device_engine = list_engine device_column device_holds;
  history_engine = list_engine history_column history_holds;
  notes_to_text = λ notes. [];
  notes_of_text = λ t. [];
  create_uuid = λ n. codes "uuid-" ++ to_string n;
}

abbrev pub empty_state : State env_model
empty_state = record {
  firmwares = [];
  devices = [];
  history = [];
  latest_cache = empty_cache;
  now = 1000;
  uuids = 0;
}

latest_clause-injective : (c d : Text) → latest_clause c ≡ latest_clause d → c ≡ d
unfolding latest_clause
latest_clause-injective c d e = append_cancel_right c d (codes "' AND Latest=true ") (
    append_cancel_left (codes " deviceType='") (c ++ codes "' AND Latest=true ")
      (d ++ codes "' AND Latest=true ") e)

same_truth : (a b : Bool) → (a ≡ true → b ≡ true) → (b ≡ true → a ≡ true) → a ≡ b
same_truth true b f g = sym (f refl)
same_truth false true f g = g refl
same_truth false false f g = refl

latest_clause-eq : (c d : Text) → (latest_clause d == latest_clause c) ≡ (c == d)
latest_clause-eq c d =
    same_truth (latest_clause d == latest_clause c) (c == d)
      (λ e.
        (text_eq_iff c d).1 (
          latest_clause-injective c d
            (sym ((text_eq_iff (latest_clause d) (latest_clause c)).0 e))))
      (λ e.
        (text_eq_iff (latest_clause d) (latest_clause c)).1
          (ap latest_clause (sym ((text_eq_iff c d).0 e))))

-- The list engine of firmwares reads what AddFirmware asks for.
pub firmware-ReadsFirmwares : ReadsFirmwares firmware_column firmware_holds
unfolding latest_clause revision_clause text_eq
firmware-ReadsFirmwares = record {
  id_column = λ t. refl;
  latest_clause_reads = λ d t plain. ap (λ b. b && t.latest) (latest_clause-eq t.device_type d);
}

abbrev pub sample_firmware : Text → Text → ℕ → Firmware
sample_firmware device_type revision image_date = record {
  id = [];
  release = revision;
  device_type = device_type;
  description = [];
  revision = revision;
  uri = codes "http://" ++ revision;
  image = [];
  image_date = image_date;
  size = 0;
  download_count = 0;
  firmware_hash = [];
  owner = [];
  location = [];
  uploader = [];
  digest = [];
  latest = false;
  notes = [];
  created = 0;
}

abbrev pub new_row : FirmwareRow
new_row = record {
  id = codes "a";
  release = codes "new";
  device_type = codes "ap";
  description = [];
  revision = codes "new";
  uri = [];
  image = [];
  image_date = 20;
  size = 0;
  download_count = 0;
  firmware_hash = [];
  owner = [];
  location = [];
  uploader = [];
  digest = [];
  latest = true;
  notes = [];
  created = 0;
}

abbrev pub old_row : FirmwareRow
old_row = record new_row {
  id = codes "b";
  release = codes "old";
  revision = codes "old";
  image_date = 10;
  latest = false;
}

abbrev pub two_rows : State env_model
two_rows = record empty_state { firmwares = new_row ∷ old_row ∷ [] }

abbrev pub new_entry : LatestFirmwareCacheEntry
new_entry = record { id = codes "a"; time_stamp = 20; revision = codes "new" }

abbrev pub old_entry : LatestFirmwareCacheEntry
old_entry = record { id = codes "b"; time_stamp = 10; revision = codes "old" }

-- The two rows, with an entry of the type "ap" in the cache.
abbrev pub cached : LatestFirmwareCacheEntry → State env_model
cached e = record two_rows { latest_cache = record empty_cache { cache = (codes "ap", e) ∷ [] } }

abbrev pub sample_device : Text → DeviceConnectionInformation
sample_device serial_number = record {
  serial_number = serial_number;
  revision = codes "old";
  device_type = codes "ap";
  end_point = [];
  last_update = 5;
  status = codes "connected";
}

abbrev pub with_device : State env_model
with_device = record (cached new_entry) { devices = sample_device (codes "aa") ∷ [] }

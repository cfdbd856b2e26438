-- ===== src/Storage/Devices.antt =====
-- src/storage/orm_deviceInfo.cpp: the table of devices, and the report on it.
pub mod Revisions
pub mod Counts
use wlan_cloud_ucentralfms.Common.{
  ℕ, ◌+◌, ◌%◌, Bool, true, false, Option, none, some, List, [], ◌∷◌, if◌then◌else◌, ◌==◌, num_Eq,
  take, Text, codes, text_Eq, Map, lookup, insert,
}
use wlan_cloud_ucentralfms.FmsObjects.{
  Firmware, FirmwareAgeDetails, DeviceConnectionInformation, same, DeviceReport,
}
use wlan_cloud_ucentralfms.Orm.Schema.{Field, field_of_type, sized_field, ft_bigint, ft_text}
use wlan_cloud_ucentralfms.Orm.Engine.{
  done, create_record, get_record, get_records, update_record, delete_record, iterate,
}
use wlan_cloud_ucentralfms.Service.{Env, State, word64}
use wlan_cloud_ucentralfms.Storage.Firmwares.{get_firmware_by_revision, compute_firmware_age}
use wlan_cloud_ucentralfms.Storage.History.{add_revision}

unfoldable pub devices_db_fields : List Field
unfolding sized_field
devices_db_fields =
    sized_field (codes "serialNumber") 36 true
    ∷ field_of_type (codes "revision") ft_text
    ∷ field_of_type (codes "deviceType") ft_text
    ∷ field_of_type (codes "endPoint") ft_text
    ∷ field_of_type (codes "lastUpdate") ft_bigint
    ∷ field_of_type (codes "status") ft_text
    ∷ []

-- UpdateCountedMap (src/framework/OpenWifiTypes.h)
abbrev pub new_count : Option ℕ → ℕ → ℕ
new_count none increment = increment
new_count (some n) increment = (n + increment) % word64

unfoldable pub update_counted_map : Map ℕ → Text → ℕ → Map ℕ
update_counted_map m k increment = insert k (new_count (lookup k m) increment) m

abbrev pub empty_report : DeviceReport
empty_report = record {
  snapshot = 0;
  number_of_devices = 0;
  oui = [];
  revisions = [];
  device_types = [];
  status = [];
  end_points = [];
  using_latest = [];
  unknown_firmwares = [];
  matched_revisions = [];
  total_seconds_old = [];
}

module _ (env : Env) where
  open env use {device_engine}

  unfoldable pub get_device : Text → State env → Option DeviceConnectionInformation
  get_device serial_number s =
      get_record same device_engine (codes "serialNumber") serial_number s.devices

  -- What is left when an update of a device's row ends, and its result.
  abbrev pub update_device : Text → DeviceConnectionInformation → State env → Bool × State env
  update_device serial_number d s =
      let (db, done) =
        update_record same device_engine (codes "serialNumber") serial_number d s.devices in
      (done, record s { devices = db })

  -- The row of a known device after SetDeviceRevision.
  abbrev pub connected :
      Text → Text → Text → DeviceConnectionInformation → DeviceConnectionInformation
  connected revision device_type end_point d = record d {
    revision = revision;
    device_type = device_type;
    end_point = end_point;
    status = codes "connected";
  }

  -- The branches of SetDeviceRevision, for what GetRecord found.
  abbrev pub set_revision :
      Text → Text → Text → Text → Option DeviceConnectionInformation → State env → Bool × State env
  set_revision serial_number revision device_type end_point (some d) s =
      update_device serial_number (connected revision device_type end_point d) (
        if d.revision == revision
        then s
        else (add_revision env serial_number device_type d.revision revision s).1)
  set_revision serial_number revision device_type end_point none s =
      let d : DeviceConnectionInformation = record {
        serial_number = serial_number;
        revision = revision;
        device_type = device_type;
        end_point = end_point;
        last_update = s.now;
        status = codes "connected";
      } in
      let (db, done) = create_record same device_engine d s.devices in
      (done, record s { devices = db })

  unfoldable pub set_device_revision : Text → Text → Text → Text → State env → Bool × State env
  set_device_revision serial_number revision device_type end_point s =
      set_revision serial_number revision device_type end_point (get_device serial_number s) s

  unfoldable pub delete_device : Text → State env → Bool × State env
  delete_device serial_number s =
      let (db, done) =
        delete_record same device_engine (codes "serialNumber") serial_number s.devices in
      (done, record s { devices = db })

  abbrev pub set_disconnected :
      Text → Text → Option DeviceConnectionInformation → State env → Bool × State env
  set_disconnected serial_number end_point none s = (false, s)
  set_disconnected serial_number end_point (some d) s =
      update_device serial_number
        (record d { status = codes "not connected"; end_point = end_point }) s

  unfoldable pub set_device_disconnected : Text → Text → State env → Bool × State env
  set_device_disconnected serial_number end_point s =
      set_disconnected serial_number end_point (get_device serial_number s) s

  unfoldable pub get_devices : ℕ → ℕ → State env → Option (List DeviceConnectionInformation)
  get_devices from how_many s =
      get_records same device_engine from how_many [] (codes " ORDER BY SerialNumber ASC ")
        s.devices

  -- What the age of a device's firmware adds to the report.
  abbrev pub report_age : Text → Option FirmwareAgeDetails → DeviceReport → DeviceReport
  report_age revision none r = r
  report_age revision (some a) r =
      if a.latest
      then record r { using_latest = update_counted_map r.using_latest revision 1 }
      else if a.age == 0
      then record r { unknown_firmwares = update_counted_map r.unknown_firmwares revision 1 }
      else record r {
        total_seconds_old = update_counted_map r.total_seconds_old (codes "total_seconds") a.age;
      }

  abbrev pub tallied : DeviceConnectionInformation → DeviceReport → DeviceReport
  tallied d r = record r {
    number_of_devices = (r.number_of_devices + 1) % word64;
    device_types = update_counted_map r.device_types d.device_type 1;
    revisions = update_counted_map r.revisions d.revision 1;
    status = update_counted_map r.status d.status 1;
    end_points = update_counted_map r.end_points d.end_point 1;
    oui = update_counted_map r.oui (take 6 d.serial_number) 1;
  }

  abbrev pub matching : Text → Option Firmware → DeviceReport → DeviceReport
  matching revision none r = r
  matching revision (some f) r = record r {
    matched_revisions = update_counted_map r.matched_revisions revision 1;
  }

  -- The callback of GenerateDeviceReport.
  unfoldable pub report_device :
      State env → DeviceConnectionInformation → DeviceReport → DeviceReport
  report_device s d r =
      report_age d.revision (compute_firmware_age env d.device_type d.revision s) (
        matching d.revision (get_firmware_by_revision env d.revision d.device_type s) (tallied d r))

  -- The argument after the fuel is the report that the caller passes in.
  unfoldable pub generate_device_report : ℕ → DeviceReport → State env → Option DeviceReport
  generate_device_report fuel r s =
      iterate same device_engine fuel 0 (λ d r. (true, report_device s d r)) [] s.devices r

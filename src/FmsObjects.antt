-- ===== src/FmsObjects.antt =====
-- The structs of src/RESTObjects/RESTAPI_FMSObjects.h that the service stores and returns, and the
-- tuples of columns with their Convert functions (src/storage/orm_*.cpp).
pub mod Firmwares
pub mod Devices
pub mod RoundTrips
use wlan_cloud_ucentralfms.Common.{ℕ, Bool, List, Text, Map}
use wlan_cloud_ucentralfms.Orm.Engine.{Convert}
pub use wlan_cloud_ucentralfms.SecurityObjects.{NoteInfo}

pub record Firmware : Type 0 where
  pub id : Text
  pub release : Text
  pub device_type : Text
  pub description : Text
  pub revision : Text
  pub uri : Text
  pub image : Text
  pub image_date : ℕ
  pub size : ℕ
  pub download_count : ℕ
  pub firmware_hash : Text
  pub owner : Text
  pub location : Text
  pub uploader : Text
  pub digest : Text
  pub latest : Bool
  pub notes : List NoteInfo
  pub created : ℕ

-- FirmwaresRecordTuple: the notes are one text column.
pub record FirmwareRow : Type 0 where
  pub id : Text
  pub release : Text
  pub device_type : Text
  pub description : Text
  pub revision : Text
  pub uri : Text
  pub image : Text
  pub image_date : ℕ
  pub size : ℕ
  pub download_count : ℕ
  pub firmware_hash : Text
  pub owner : Text
  pub location : Text
  pub uploader : Text
  pub digest : Text
  pub latest : Bool
  pub notes : Text
  pub created : ℕ

-- The texts of notes (RESTAPI_utils::to_string and to_object_array, over Poco's JSON) are given.
module _ (notes_to_text : List NoteInfo → Text) (notes_of_text : Text → List NoteInfo) where
  unfoldable pub firmware_to_tuple : Firmware → FirmwareRow
  firmware_to_tuple f = record {
    id = f.id;
    release = f.release;
    device_type = f.device_type;
    description = f.description;
    revision = f.revision;
    uri = f.uri;
    image = f.image;
    image_date = f.image_date;
    size = f.size;
    download_count = f.download_count;
    firmware_hash = f.firmware_hash;
    owner = f.owner;
    location = f.location;
    uploader = f.uploader;
    digest = f.digest;
    latest = f.latest;
    notes = notes_to_text f.notes;
    created = f.created;
  }

  unfoldable pub firmware_of_tuple : FirmwareRow → Firmware
  firmware_of_tuple t = record {
    id = t.id;
    release = t.release;
    device_type = t.device_type;
    description = t.description;
    revision = t.revision;
    uri = t.uri;
    image = t.image;
    image_date = t.image_date;
    size = t.size;
    download_count = t.download_count;
    firmware_hash = t.firmware_hash;
    owner = t.owner;
    location = t.location;
    uploader = t.uploader;
    digest = t.digest;
    latest = t.latest;
    notes = notes_of_text t.notes;
    created = t.created;
  }

  unfoldable pub firmware_convert : Convert FirmwareRow Firmware
  unfolding firmware_to_tuple firmware_of_tuple
  firmware_convert = record { to_tuple = firmware_to_tuple; of_tuple = firmware_of_tuple }

pub record RevisionHistoryEntry : Type 0 where
  pub id : Text
  pub serial_number : Text
  pub from_release : Text
  pub to_release : Text
  pub command_uuid : Text
  pub revision_id : Text
  pub upgraded : ℕ

pub record FirmwareAgeDetails : Type 0 where
  pub latest_id : Text
  pub image : Text
  pub image_date : ℕ
  pub revision : Text
  pub uri : Text
  pub age : ℕ
  pub latest : Bool

pub record DeviceConnectionInformation : Type 0 where
  pub serial_number : Text
  pub revision : Text
  pub device_type : Text
  pub end_point : Text
  pub last_update : ℕ
  pub status : Text

-- HistoryRecordTuple and DevicesRecordTuple have the columns of the structs, in their order.
abbrev pub same : {R : Type 0} → Convert R R
same = record { to_tuple = λ r. r; of_tuple = λ r. r }

-- Types::CountedMap is a map of counters that wrap around at 64 bits.
pub record DeviceReport : Type 0 where
  pub snapshot : ℕ
  pub number_of_devices : ℕ
  pub oui : Map ℕ
  pub revisions : Map ℕ
  pub device_types : Map ℕ
  pub status : Map ℕ
  pub end_points : Map ℕ
  pub using_latest : Map ℕ
  pub unknown_firmwares : Map ℕ
  pub matched_revisions : Map ℕ
  pub total_seconds_old : Map ℕ

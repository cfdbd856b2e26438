-- ===== src/FmsObjects/Firmwares.antt =====
-- to_json and from_json of firmware and device types (src/RESTObjects/RESTAPI_FMSObjects.cpp).
use wlan_cloud_ucentralfms.Common.{ℕ, Bool, true, false, List, [], ◌∷◌, Text}
use wlan_cloud_ucentralfms.Json.{Json}
use wlan_cloud_ucentralfms.Json.Codecs.{text_codec, number_codec, bool_codec}
use wlan_cloud_ucentralfms.Json.Struct.{JsonField, field, from_json, vector_codec}
use wlan_cloud_ucentralfms.SecurityObjects.{NoteInfo, fresh_note_info, note_info_fields}
use wlan_cloud_ucentralfms.FmsObjects.{
  Firmware, FirmwareAgeDetails, DeviceConnectionInformation, NoteInfo,
}

-- FMSObjects::FirmwareList
pub record FirmwareList : Type 0 where
  pub firmwares : List Firmware

-- FMSObjects::DeviceType
pub record DeviceType : Type 0 where
  pub id : Text
  pub device_type : Text
  pub manufacturer : Text
  pub model : Text
  pub policy : Text
  pub notes : List NoteInfo
  pub last_update : ℕ
  pub created : ℕ

-- FMSObjects::DeviceTypeList
pub record DeviceTypeList : Type 0 where
  pub device_types : List DeviceType

abbrev pub fresh_firmware : Firmware
fresh_firmware = record {
  id = [];
  release = [];
  device_type = [];
  description = [];
  revision = [];
  uri = [];
  image = [];
  image_date = 0;
  size = 0;
  download_count = 0;
  firmware_hash = [];
  owner = [];
  location = [];
  uploader = [];
  digest = [];
  latest = false;
  notes = [];
  created = 0;
}

abbrev pub fresh_firmware_list : FirmwareList
fresh_firmware_list = record { firmwares = [] }

abbrev pub fresh_device_type : DeviceType
fresh_device_type = record {
  id = [];
  device_type = [];
  manufacturer = [];
  model = [];
  policy = [];
  notes = [];
  last_update = 0;
  created = 0;
}

abbrev pub fresh_device_type_list : DeviceTypeList
fresh_device_type_list = record { device_types = [] }

abbrev pub fresh_firmware_age_details : ℕ → FirmwareAgeDetails
fresh_firmware_age_details image_date = record {
  latest_id = [];
  image = [];
  image_date = image_date;
  revision = [];
  uri = [];
  age = 0;
  latest = true;
}

abbrev pub fresh_device_connection_information : ℕ → DeviceConnectionInformation
fresh_device_connection_information last_update = record {
  serial_number = [];
  revision = [];
  device_type = [];
  end_point = [];
  last_update = last_update;
  status = [];
}

module _ {Var Object : Type 0} (J : Json Var Object) where
  unfoldable pub firmware_fields : List (JsonField Var Firmware)
  firmware_fields =
      field "id" (text_codec J) (λ r. r.id) (λ a r. record r { id = a })
      ∷ field "release" (text_codec J) (λ r. r.release) (λ a r. record r { release = a })
      ∷ field "deviceType" (text_codec J) (λ r. r.device_type) (λ a r. record r { device_type = a })
      ∷ field "description" (text_codec J) (λ r. r.description)
          (λ a r. record r { description = a })
      ∷ field "revision" (text_codec J) (λ r. r.revision) (λ a r. record r { revision = a })
      ∷ field "uri" (text_codec J) (λ r. r.uri) (λ a r. record r { uri = a })
      ∷ field "image" (text_codec J) (λ r. r.image) (λ a r. record r { image = a })
      ∷ field "imageDate" (number_codec J) (λ r. r.image_date) (λ a r. record r { image_date = a })
      ∷ field "size" (number_codec J) (λ r. r.size) (λ a r. record r { size = a })
      ∷ field "downloadCount" (number_codec J) (λ r. r.download_count)
          (λ a r. record r { download_count = a })
      ∷ field "firmwareHash" (text_codec J) (λ r. r.firmware_hash)
          (λ a r. record r { firmware_hash = a })
      ∷ field "owner" (text_codec J) (λ r. r.owner) (λ a r. record r { owner = a })
      ∷ field "location" (text_codec J) (λ r. r.location) (λ a r. record r { location = a })
      ∷ field "uploader" (text_codec J) (λ r. r.uploader) (λ a r. record r { uploader = a })
      ∷ field "digest" (text_codec J) (λ r. r.digest) (λ a r. record r { digest = a })
      ∷ field "latest" (bool_codec J) (λ r. r.latest) (λ a r. record r { latest = a })
      ∷ field "notes" (vector_codec J (note_info_fields J) fresh_note_info) (λ r. r.notes)
          (λ a r. record r { notes = a })
      ∷ field "created" (number_codec J) (λ r. r.created) (λ a r. record r { created = a })
      ∷ []

  unfoldable pub firmware_list_fields : List (JsonField Var FirmwareList)
  firmware_list_fields =
      field "firmwares" (vector_codec J firmware_fields fresh_firmware) (λ r. r.firmwares)
        (λ a r. record r { firmwares = a })
      ∷ []

  unfoldable pub device_type_fields : List (JsonField Var DeviceType)
  device_type_fields =
      field "id" (text_codec J) (λ r. r.id) (λ a r. record r { id = a })
      ∷ field "deviceType" (text_codec J) (λ r. r.device_type) (λ a r. record r { device_type = a })
      ∷ field "manufacturer" (text_codec J) (λ r. r.manufacturer)
          (λ a r. record r { manufacturer = a })
      ∷ field "model" (text_codec J) (λ r. r.model) (λ a r. record r { model = a })
      ∷ field "policy" (text_codec J) (λ r. r.policy) (λ a r. record r { policy = a })
      ∷ field "notes" (vector_codec J (note_info_fields J) fresh_note_info) (λ r. r.notes)
          (λ a r. record r { notes = a })
      ∷ field "lastUpdate" (number_codec J) (λ r. r.last_update)
          (λ a r. record r { last_update = a })
      ∷ field "created" (number_codec J) (λ r. r.created) (λ a r. record r { created = a })
      ∷ field "id" (text_codec J) (λ r. r.id) (λ a r. record r { id = a })
      ∷ field "id" (text_codec J) (λ r. r.id) (λ a r. record r { id = a })
      ∷ field "id" (text_codec J) (λ r. r.id) (λ a r. record r { id = a })
      ∷ []

  unfoldable pub device_type_list_fields : List (JsonField Var DeviceTypeList)
  device_type_list_fields =
      field "deviceTypes" (vector_codec J device_type_fields fresh_device_type)
        (λ r. r.device_types) (λ a r. record r { device_types = a })
      ∷ []

  unfoldable pub firmware_age_details_fields : List (JsonField Var FirmwareAgeDetails)
  firmware_age_details_fields =
      field "latestId" (text_codec J) (λ r. r.latest_id) (λ a r. record r { latest_id = a })
      ∷ field "image" (text_codec J) (λ r. r.image) (λ a r. record r { image = a })
      ∷ field "imageDate" (number_codec J) (λ r. r.image_date) (λ a r. record r { image_date = a })
      ∷ field "revision" (text_codec J) (λ r. r.revision) (λ a r. record r { revision = a })
      ∷ field "uri" (text_codec J) (λ r. r.uri) (λ a r. record r { uri = a })
      ∷ field "age" (number_codec J) (λ r. r.age) (λ a r. record r { age = a })
      ∷ field "latest" (bool_codec J) (λ r. r.latest) (λ a r. record r { latest = a })
      ∷ []

  unfoldable pub device_connection_information_fields :
      List (JsonField Var DeviceConnectionInformation)
  device_connection_information_fields =
      field "serialNumber" (text_codec J) (λ r. r.serial_number)
        (λ a r. record r { serial_number = a })
      ∷ field "revision" (text_codec J) (λ r. r.revision) (λ a r. record r { revision = a })
      ∷ field "deviceType" (text_codec J) (λ r. r.device_type) (λ a r. record r { device_type = a })
      ∷ field "endPoint" (text_codec J) (λ r. r.end_point) (λ a r. record r { end_point = a })
      ∷ field "lastUpdate" (number_codec J) (λ r. r.last_update)
          (λ a r. record r { last_update = a })
      ∷ field "status" (text_codec J) (λ r. r.status) (λ a r. record r { status = a })
      ∷ []

  -- Firmware::from_json, which returns true after its catch as well.
  unfoldable pub firmware_from_json : Object → Firmware → Bool × Firmware
  unfolding from_json firmware_fields
  firmware_from_json o f = (true, (from_json J firmware_fields o f).1)

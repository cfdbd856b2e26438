-- ===== src/FmsObjects/Devices.antt =====
-- to_json and from_json of what the service reports of a device (src/RESTObjects/RESTAPI_FMSObjects.cpp).
use wlan_cloud_ucentralfms.Common.{ℕ, Bool, List, [], ◌∷◌, Text}
use wlan_cloud_ucentralfms.Json.{Json}
use wlan_cloud_ucentralfms.Json.Codecs.{text_codec, number_codec, bool_codec}
use wlan_cloud_ucentralfms.Json.Struct.{JsonField, field, object_codec, vector_codec}
use wlan_cloud_ucentralfms.FmsObjects.{RevisionHistoryEntry}

-- FMSObjects::RevisionHistoryEntryList
pub record RevisionHistoryEntryList : Type 0 where
  pub history : List RevisionHistoryEntry

-- FMSObjects::DeviceInformation
pub record DeviceInformation : Type 0 where
  pub serial_number : Text
  pub history : RevisionHistoryEntryList
  pub current_firmware : Text
  pub current_firmware_date : ℕ
  pub latest_firmware : Text
  pub latest_firmware_date : ℕ
  pub latest_firmware_available : Bool
  pub latest_firmware_uri : Text

-- FMSObjects::DeviceCurrentInfo
pub record DeviceCurrentInfo : Type 0 where
  pub serial_number : Text
  pub revision : Text
  pub upgraded : ℕ

-- FMSObjects::DeviceCurrentInfoList
pub record DeviceCurrentInfoList : Type 0 where
  pub devices : List DeviceCurrentInfo

abbrev pub fresh_revision_history_entry : ℕ → RevisionHistoryEntry
fresh_revision_history_entry upgraded = record {
  id = [];
  serial_number = [];
  from_release = [];
  to_release = [];
  command_uuid = [];
  revision_id = [];
  upgraded = upgraded;
}

abbrev pub fresh_revision_history_entry_list : RevisionHistoryEntryList
fresh_revision_history_entry_list = record { history = [] }

abbrev pub fresh_device_information : Bool → DeviceInformation
fresh_device_information latest_firmware_available = record {
  serial_number = [];
  history = fresh_revision_history_entry_list;
  current_firmware = [];
  current_firmware_date = 0;
  latest_firmware = [];
  latest_firmware_date = 0;
  latest_firmware_available = latest_firmware_available;
  latest_firmware_uri = [];
}

abbrev pub fresh_device_current_info : DeviceCurrentInfo
fresh_device_current_info = record { serial_number = []; revision = []; upgraded = 0 }

abbrev pub fresh_device_current_info_list : DeviceCurrentInfoList
fresh_device_current_info_list = record { devices = [] }

module _ {Var Object : Type 0} (J : Json Var Object) (upgraded : ℕ) where
  unfoldable pub revision_history_entry_fields : List (JsonField Var RevisionHistoryEntry)
  revision_history_entry_fields =
      field "id" (text_codec J) (λ r. r.id) (λ a r. record r { id = a })
      ∷ field "serialNumber" (text_codec J) (λ r. r.serial_number)
          (λ a r. record r { serial_number = a })
      ∷ field "fromRelease" (text_codec J) (λ r. r.from_release)
          (λ a r. record r { from_release = a })
      ∷ field "toRelease" (text_codec J) (λ r. r.to_release) (λ a r. record r { to_release = a })
      ∷ field "commandUUID" (text_codec J) (λ r. r.command_uuid)
          (λ a r. record r { command_uuid = a })
      ∷ field "revisionId" (text_codec J) (λ r. r.revision_id) (λ a r. record r { revision_id = a })
      ∷ field "upgraded" (number_codec J) (λ r. r.upgraded) (λ a r. record r { upgraded = a })
      ∷ []

  unfoldable pub revision_history_entry_list_fields : List (JsonField Var RevisionHistoryEntryList)
  revision_history_entry_list_fields =
      field "deviceTypes"
        (vector_codec J revision_history_entry_fields (fresh_revision_history_entry upgraded))
        (λ r. r.history) (λ a r. record r { history = a })
      ∷ []

  unfoldable pub device_information_fields : List (JsonField Var DeviceInformation)
  device_information_fields =
      field "serialNumber" (text_codec J) (λ r. r.serial_number)
        (λ a r. record r { serial_number = a })
      ∷ field "history" (object_codec J revision_history_entry_list_fields) (λ r. r.history)
          (λ a r. record r { history = a })
      ∷ field "currentFirmware" (text_codec J) (λ r. r.current_firmware)
          (λ a r. record r { current_firmware = a })
      ∷ field "currentFirmwareDate" (number_codec J) (λ r. r.current_firmware_date)
          (λ a r. record r { current_firmware_date = a })
      ∷ field "latestFirmware" (text_codec J) (λ r. r.latest_firmware)
          (λ a r. record r { latest_firmware = a })
      ∷ field "latestFirmwareDate" (number_codec J) (λ r. r.latest_firmware_date)
          (λ a r. record r { latest_firmware_date = a })
      ∷ field "latestFirmwareAvailable" (bool_codec J) (λ r. r.latest_firmware_available)
          (λ a r. record r { latest_firmware_available = a })
      ∷ field "latestFirmwareURI" (text_codec J) (λ r. r.latest_firmware_uri)
          (λ a r. record r { latest_firmware_uri = a })
      ∷ []

  unfoldable pub device_current_info_fields : List (JsonField Var DeviceCurrentInfo)
  device_current_info_fields =
      field "serialNumber" (text_codec J) (λ r. r.serial_number)
        (λ a r. record r { serial_number = a })
      ∷ field "revision" (text_codec J) (λ r. r.revision) (λ a r. record r { revision = a })
      ∷ field "upgraded" (number_codec J) (λ r. r.upgraded) (λ a r. record r { upgraded = a })
      ∷ []

  unfoldable pub device_current_info_list_fields : List (JsonField Var DeviceCurrentInfoList)
  device_current_info_list_fields =
      field "devices" (vector_codec J device_current_info_fields fresh_device_current_info)
        (λ r. r.devices) (λ a r. record r { devices = a })
      ∷ []

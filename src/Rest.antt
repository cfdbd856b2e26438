-- ===== src/Rest.antt =====
-- The handlers of src/RESTAPI/ as functions from a request to a response.
pub mod FirmwareHandler
pub mod HistoryHandler
pub mod FirmwareAgeHandler
use wlan_cloud_ucentralfms.Common.{Bool, Option, List, if◌then◌else◌, Text}
use wlan_cloud_ucentralfms.FmsObjects.{Firmware, FirmwareAgeDetails}

-- RESTAPI::Errors, as far as the handlers answer with them.
pub data RestError : Type 0 where
  missing_uuid invalid_json_document record_not_created could_not_be_deleted record_not_updated :
      RestError
  id_or_serial_empty both_device_type_revision : RestError

pub data Response : Type 0 where
  ok : Response
  not_found : Response
  bad_request : RestError → Response
  firmware_object : Firmware → Response
  age_object : FirmwareAgeDetails → Response
  ages_object : List (Text × Option FirmwareAgeDetails) → Response

abbrev pub answer : Bool → Response → Response → Response
answer done success failure = if done then success else failure

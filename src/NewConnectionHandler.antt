-- ===== src/NewConnectionHandler.antt =====
-- src/NewConnectionHandler.cpp: what the gateway tells of devices over Kafka.
pub mod Events
use mathlib.Core.Option.{bind}
use wlan_cloud_ucentralfms.Common.{
  Bool, ◌&&◌, Option, none, some, List, [], ◌∷◌, if◌then◌else◌, Text, codes, Map,
}
use wlan_cloud_ucentralfms.FmsObjects.{FirmwareAgeDetails}
use wlan_cloud_ucentralfms.LatestFirmwareCache.{is_latest}
use wlan_cloud_ucentralfms.Service.{Env, State}
use wlan_cloud_ucentralfms.Storage.{trim_revision}
use wlan_cloud_ucentralfms.Storage.Firmwares.{compute_firmware_age}
use wlan_cloud_ucentralfms.Storage.Devices.{set_device_revision, set_device_disconnected}
use wlan_cloud_ucentralfms.AutoUpdater.{Updater, to_be_upgraded}
use wlan_cloud_ucentralfms.DeviceCache.{DeviceCacheEntry, remember}

-- Poco::JSON, which is given; `none` is a Poco::Exception.
pub record PocoJson : Type 1 where
  pub Object : Type 0
  -- Parser.parse, extract
  pub parse : Text → Option Object
  pub has : Object → Text → Bool
  -- getObject, dereferenced
  pub get_object : Object → Text → Option Object
  -- get(...).toString()
  pub get_text : Object → Text → Option Text

-- The singletons that the handler changes.
pub record Node (env : Env) : Type 0 where
  pub service : State env
  pub updater : Updater
  pub devices_heard : Map DeviceCacheEntry

-- What a message tells, after the end point: a connection or a ping has the serial number of the
-- payload, the device type and the revision; a disconnection has its serial number.
pub data Event : Type 0 where
  connection : Text → Text → Text → Event
  disconnection : Text → Event
  ping : Text → Text → Text → Event
  ignored : Event

module _ (json : PocoJson) where
  open json use {Object, parse, has, get_object, get_text}

  unfoldable pub end_point_of : Object → Option Text
  end_point_of o =
      if has o (codes "system")
      then bind (get_object o (codes "system"))
          (λ system. if has system (codes "host") then get_text system (codes "host") else some [])
      else some []

  unfoldable pub connection_of : Object → Option Event
  connection_of payload = bind (get_object payload (codes "capabilities")) (λ cap.
      if has cap (codes "compatible")
      then bind (get_text cap (codes "compatible")) (λ device_type.
        bind (get_text payload (codes "serial")) (λ serial.
          bind (get_text payload (codes "firmware"))
            (λ firmware. some (connection serial device_type (trim_revision firmware)))))
      else some ignored)

  unfoldable pub disconnection_of : Object → Option Event
  disconnection_of payload = bind (get_object payload (codes "disconnection")) (λ message.
      if has message (codes "serialNumber") && has message (codes "timestamp")
      then bind (get_text message (codes "serialNumber")) (λ serial. some (disconnection serial))
      else some ignored)

  unfoldable pub ping_of : Object → Option Event
  ping_of payload = bind (get_object payload (codes "ping")) (λ message.
      if has message (codes "firmware")
        && (has message (codes "serialNumber") && has message (codes "compatible"))
      then bind (get_text message (codes "firmware")) (λ firmware.
        bind (get_text message (codes "serialNumber")) (λ serial.
          bind (get_text message (codes "compatible"))
            (λ device_type. some (ping serial device_type (trim_revision firmware)))))
      else some ignored)

  unfoldable pub payload_of : Object → Option Event
  unfolding connection_of disconnection_of ping_of
  payload_of payload =
      if has payload (codes "capabilities")
      then connection_of payload
      else if has payload (codes "disconnection")
      then disconnection_of payload
      else if has payload (codes "ping")
      then ping_of payload
      else some ignored

  -- All that the handler reads in a message, before it changes anything.
  unfoldable pub read_message : Text → Option (Text × Event)
  unfolding end_point_of payload_of
  read_message message = bind (parse message) (λ o. bind (end_point_of o) (λ end_point.
      if has o (codes "payload")
      then bind (get_object o (codes "payload"))
          (λ payload. bind (payload_of payload) (λ e. some (end_point, e)))
      else some (end_point, ignored)))

module _ (env : Env) where
  -- if (!IsLatest(DeviceType, Revision)) ToBeUpgraded(SerialNumber, DeviceType)
  unfoldable pub ask_upgrade : Text → Text → Text → Node env → Node env
  unfolding is_latest to_be_upgraded
  ask_upgrade key device_type revision n =
      if is_latest device_type revision n.service.latest_cache
      then n
      else record n { updater = to_be_upgraded key device_type n.updater }

  abbrev pub record_revision : Text → Text → Text → Text → Node env → Node env
  record_revision serial_number revision device_type end_point n = record n {
    service = (set_device_revision env serial_number revision device_type end_point n.service).1;
  }

  abbrev pub hear : Text → Text → Text → Text → Node env → Node env
  hear serial device_type end_point revision n = record n {
    devices_heard = remember serial device_type end_point revision n.devices_heard;
  }

  -- Only when the age of the firmware can be told.
  abbrev pub known_age : Option FirmwareAgeDetails → (Node env → Node env) → Node env → Node env
  known_age none f n = n
  known_age (some a) f n = f n

  -- What the handler does for an event; the key is the serial number of the Kafka message.
  unfoldable pub apply_event : Text → Text → Event → Node env → Node env
  unfolding ask_upgrade remember set_device_disconnected
  apply_event key end_point (connection serial device_type revision) n =
      hear serial device_type end_point revision (
        ask_upgrade key device_type revision (
          known_age (compute_firmware_age env device_type revision n.service)
            (record_revision key revision device_type end_point) n))
  apply_event key end_point (disconnection serial) n = record n {
    service = (set_device_disconnected env serial end_point n.service).1;
  }
  apply_event key end_point (ping serial device_type revision) n =
      ask_upgrade key device_type revision (
        hear serial device_type end_point revision
          (record_revision serial revision device_type end_point n))
  apply_event key end_point ignored n = n

  -- One message: an exception is logged.
  abbrev pub apply_read : Text → Option (Text × Event) → Node env → Node env
  apply_read key none n = n
  apply_read key (some (end_point, e)) n = apply_event key end_point e n

  -- The loop of run over the queue, as long as it is running.
  unfoldable pub handle_all : PocoJson → List (Text × Text) → Node env → Node env
  handle_all json [] n = n
  handle_all json ((key, message) ∷ q) n =
      handle_all json q (apply_read key (read_message json message) n)

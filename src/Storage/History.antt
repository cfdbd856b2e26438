-- ===== src/Storage/History.antt =====
-- src/storage/orm_history.cpp: the table of the revisions that devices had.
use wlan_cloud_ucentralfms.Common.{
  ℕ, ◌+◌, Bool, true, Option, none, some, List, [], ◌∷◌, ◌++◌, Text, codes,
}
use wlan_cloud_ucentralfms.FmsObjects.{Firmware, RevisionHistoryEntry, same}
use wlan_cloud_ucentralfms.Orm.Schema.{Field, field_of_type, sized_field, ft_bigint, ft_text}
use wlan_cloud_ucentralfms.Orm.Engine.{
  done, create_record, get_records, delete_record, delete_records,
}
use wlan_cloud_ucentralfms.Service.{Env, State}
use wlan_cloud_ucentralfms.Storage.Firmwares.{get_firmware_by_revision}

unfoldable pub history_db_fields : List Field
unfolding sized_field
history_db_fields =
    sized_field (codes "id") 36 true
    ∷ field_of_type (codes "serialNumber") ft_text
    ∷ field_of_type (codes "fromRelease") ft_text
    ∷ field_of_type (codes "toRelease") ft_text
    ∷ field_of_type (codes "commandUUID") ft_text
    ∷ field_of_type (codes "revisionId") ft_text
    ∷ field_of_type (codes "upgraded") ft_bigint
    ∷ []

unfoldable pub serial_clause : Text → Text
serial_clause serial_number = codes " serialNumber='" ++ (serial_number ++ codes "' ")

module _ (env : Env) where
  open env use {history_engine, create_uuid}

  unfoldable pub get_history : Text → ℕ → ℕ → State env → Option (List RevisionHistoryEntry)
  get_history serial_number from how_many s =
      get_records same history_engine from how_many (serial_clause serial_number)
        (codes " order by upgraded DESC ") s.history

  unfoldable pub add_history : RevisionHistoryEntry → State env → Bool × State env
  add_history entry s =
      let (db, done) = create_record same history_engine entry s.history in
      (done, record s { history = db })

  -- The entry that the second AddHistory makes.
  abbrev pub revision_id : Option Firmware → Text
  revision_id none = codes "unknown"
  revision_id (some f) = f.id

  unfoldable pub revision_entry : Text → Text → Text → Text → State env → RevisionHistoryEntry
  revision_entry serial_number device_type previous_revision new_version s = record {
    id = create_uuid s.uuids;
    serial_number = serial_number;
    from_release = previous_revision;
    to_release = new_version;
    command_uuid = [];
    revision_id = revision_id (get_firmware_by_revision env new_version device_type s);
    upgraded = s.now;
  }

  unfoldable pub add_revision : Text → Text → Text → Text → State env → Bool × State env
  unfolding add_history revision_entry
  add_revision serial_number device_type previous_revision new_version s =
      add_history (revision_entry serial_number device_type previous_revision new_version s)
        (record s { uuids = s.uuids + 1 })

  unfoldable pub delete_history_entry : Text → Text → State env → Bool × State env
  delete_history_entry serial_number id s =
      let (db, done) = delete_record same history_engine (codes "id") id s.history in
      (done, record s { history = db })

  unfoldable pub delete_history : Text → State env → Bool × State env
  delete_history serial_number s =
      let (db, done) = delete_records same history_engine (serial_clause serial_number) s.history in
      (done, record s { history = db })

-- ===== src/Storage/Devices/Revisions.antt =====
-- What SetDeviceRevision leaves in the tables of devices and of revisions.
use wlan_cloud_ucentralfms.Common.{
  ℕ, ◌≡◌, refl, sym, ◌∙◌, ◌≢◌, ◌↔◌, ◌⊎◌, inl, inr, Bool, true, false, Option, none, some, List, [],
  if◌then◌else◌, Bool-cases, Option-cases, num_Eq, ◌==◌, In, Text, codes, text_eq_iff, text_Eq,
}
use wlan_cloud_ucentralfms.FmsObjects.{
  Firmware, RevisionHistoryEntry, DeviceConnectionInformation, same,
}
use wlan_cloud_ucentralfms.Orm.Engine.{done, create_record, update_record}
use wlan_cloud_ucentralfms.Orm.Engine.Laws.{IsTable, Accepts}
use wlan_cloud_ucentralfms.Orm.Statements.{insert_row, update_by}
use wlan_cloud_ucentralfms.Service.{Env, State}
use wlan_cloud_ucentralfms.Storage.Devices.{
  get_device, update_device, connected, set_revision, set_device_revision,
}
use wlan_cloud_ucentralfms.Storage.Firmwares.{get_firmware_by_revision}
use wlan_cloud_ucentralfms.Storage.History.{add_history, revision_id, revision_entry, add_revision}
use mathlib.Core.Bool.{false≢true}
use mathlib.Core.Path.{subst}

module _ (env : Env) {column : Text → RevisionHistoryEntry → Text}
    {holds : Text → RevisionHistoryEntry → Bool} (table : IsTable env.history_engine column holds)
    (accepts : Accepts env.history_engine) where
  add_revision-history :
      (serial_number device_type old new : Text) (s : State env) (t : RevisionHistoryEntry)
      → In t (table.rows (add_revision env serial_number device_type old new s).1.history) ↔ (
          In t (table.rows s.history)
          ⊎ (t ≡ revision_entry env serial_number device_type old new s))
  unfolding add_revision add_history create_record revision_entry
  add_revision-history serial_number device_type old new s t =
      let (db', e) =
        accepts (insert_row (revision_entry env serial_number device_type old new s)) s.history in
      rw (e, done)
        (table.inserted (revision_entry env serial_number device_type old new s) s.history db' t e)

  abbrev pub firmware_id : Option Firmware → Text
  firmware_id none = codes "unknown"
  firmware_id (some f) = f.id

  -- The entry of the history that is meant.
  abbrev pub expected_entry : Text → Text → Text → Text → State env → RevisionHistoryEntry
  expected_entry serial_number device_type old new s = record {
    id = env.create_uuid s.uuids;
    serial_number = serial_number;
    from_release = old;
    to_release = new;
    command_uuid = [];
    revision_id = firmware_id (get_firmware_by_revision env new device_type s);
    upgraded = s.now;
  }

  revision_entry-expected_entry :
      (serial_number device_type old new : Text) (s : State env)
      → revision_entry env serial_number device_type old new s
        ≡ expected_entry serial_number device_type old new s
  unfolding revision_entry
  revision_entry-expected_entry serial_number device_type old new s =
      elim (Option-cases (get_firmware_by_revision env new device_type s)) [
        | inl e ↦ rw (e, revision_id) refl
        | inr (f, e) ↦ rw (e, revision_id) refl
      ]

  -- SetDeviceRevision of a known device, when the history takes statements: when the revision differs
  -- from the one in its row the history has one more entry, and there is no other change of it. The
  -- entry has a new UUID, the serial number, the old revision and the new one, no command, the time, and
  -- the identifier of the firmware of the new revision, "unknown" when the table has none.
  pub set_device_revision-history :
      (serial_number revision device_type end_point : Text) (s : State env)
      (d : DeviceConnectionInformation)
      → get_device env serial_number s ≡ some d
      → (t : RevisionHistoryEntry)
      → In t (
          table.rows
            (set_device_revision env serial_number revision device_type end_point s).1.history)
        ↔ (In t (table.rows s.history)
            ⊎ ((d.revision ≢ revision)
                × (t ≡ expected_entry serial_number device_type d.revision revision s)))
  unfolding set_device_revision
  set_device_revision-history serial_number revision device_type end_point s d known t =
      elim (Bool-cases (d.revision == revision)) [
        | inl unchanged ↦
            rw (known, set_revision, unchanged)
              (
                inl,
                λ h. elim h [
                  | inl old ↦ old
                  | inr new ↦ absurd (new.0 ((text_eq_iff d.revision revision).0 unchanged))
                ],
              )
        | inr changed ↦
            let added =
              subst
                (λ r.
                  In t (
                    table.rows
                      (add_revision env serial_number device_type d.revision revision s).1.history)
                  ↔ (In t (table.rows s.history) ⊎ (t ≡ r)))
                (revision_entry-expected_entry serial_number device_type d.revision revision s)
                (add_revision-history serial_number device_type d.revision revision s t) in
            rw (known, set_revision, changed)
              (
                λ h. elim (added.0 h) [ inl old ↦ inl old | inr new ↦ inr (differ changed, new) ],
                λ h. added.1 (elim h [ inl old ↦ inl old | inr new ↦ inr new.1 ]),
              )
      ]
    where
      differ : (d.revision == revision) ≡ false → d.revision ≢ revision
      differ changed e = false≢true (sym changed ∙ (text_eq_iff d.revision revision).1 e)

module _ (env : Env) {column : Text → DeviceConnectionInformation → Text}
    {holds : Text → DeviceConnectionInformation → Bool}
    (table : IsTable env.device_engine column holds) (accepts : Accepts env.device_engine) where
  update_device-row :
      (serial_number : Text) (d : DeviceConnectionInformation) (s : State env)
      → ((update_device env serial_number d s).0 ≡ true)
        × ((t : DeviceConnectionInformation)
            → In t (table.rows (update_device env serial_number d s).1.devices)
            → column (codes "serialNumber") t ≡ serial_number
            → t ≡ d)
  unfolding update_record
  update_device-row serial_number d s =
      let (db', e) = accepts (update_by (codes "serialNumber") serial_number d) s.devices in
      rw (e, done)
        (
          refl,
          λ t at is.
              elim (table.updated (codes "serialNumber") serial_number d s.devices db' t e at) [
                | inl old ↦ absurd (old.1 is)
                | inr new ↦ new
              ],
        )

  created_device :
      (d : DeviceConnectionInformation) (s : State env)
      → let (db, done) = create_record same env.device_engine d s.devices in
        (done ≡ true)
        × ((t : DeviceConnectionInformation)
            → In t (table.rows db) ↔ (In t (table.rows s.devices) ⊎ (t ≡ d)))
  unfolding create_record
  created_device d s =
      let (db', e) = accepts (insert_row d) s.devices in
      rw (e, done) (refl, λ t. table.inserted d s.devices db' t e)

  abbrev pub row_of : Text → ℕ → Text → Text → Text → DeviceConnectionInformation
  row_of serial_number last_update revision device_type end_point = record {
    serial_number = serial_number;
    revision = revision;
    device_type = device_type;
    end_point = end_point;
    last_update = last_update;
    status = codes "connected";
  }

  -- The rows of a table after SetDeviceRevision, by the row that the device had.
  abbrev pub IsRecorded :
      Text
      → Text
      → Text
      → Text
      → State env
      → List DeviceConnectionInformation
      → Option DeviceConnectionInformation
      → Type 0
  IsRecorded serial_number revision device_type end_point s rows none =
      (t : DeviceConnectionInformation)
      → In t rows ↔ (
          In t (table.rows s.devices)
          ⊎ (t ≡ row_of serial_number s.now revision device_type end_point))
  IsRecorded serial_number revision device_type end_point s rows (some d) =
      (t : DeviceConnectionInformation)
      → In t rows
      → column (codes "serialNumber") t ≡ serial_number
      → t ≡ row_of d.serial_number d.last_update revision device_type end_point

  set_revision-row :
      (serial_number revision device_type end_point : Text) (s : State env)
      (o : Option DeviceConnectionInformation)
      → ((set_revision env serial_number revision device_type end_point o s).0 ≡ true)
        × IsRecorded serial_number revision device_type end_point s
            (table.rows
              (set_revision env serial_number revision device_type end_point o s).1.devices)
            o
  set_revision-row serial_number revision device_type end_point s none =
      created_device (row_of serial_number s.now revision device_type end_point) s
  set_revision-row serial_number revision device_type end_point s (some d) =
      update_device-row serial_number (connected env revision device_type end_point d) (
        if d.revision == revision
        then s
        else (add_revision env serial_number device_type d.revision revision s).1)

  -- SetDeviceRevision, when the table of devices takes statements, succeeds. Of a known device every
  -- row then has the new revision, type and end point and is connected, while its serial number and the
  -- time of its last update stay. Of an unknown device the table has one more row, with those and the
  -- time, and no other change.
  pub set_device_revision-row :
      (serial_number revision device_type end_point : Text) (s : State env)
      → ((set_device_revision env serial_number revision device_type end_point s).0 ≡ true)
        × IsRecorded serial_number revision device_type end_point s
            (table.rows
              (set_device_revision env serial_number revision device_type end_point s).1.devices)
            (get_device env serial_number s)
  unfolding set_device_revision
  set_device_revision-row serial_number revision device_type end_point s =
      set_revision-row serial_number revision device_type end_point s
        (get_device env serial_number s)

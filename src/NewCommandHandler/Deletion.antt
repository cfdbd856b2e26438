-- ===== src/NewCommandHandler/Deletion.antt =====
-- What the handler's commands leave in the tables.
use wlan_cloud_ucentralfms.Common.{◌≡◌, ◌≢◌, ◌↔◌, Bool, true, false, some, [], ◌∷◌, In, Text, codes}
use wlan_cloud_ucentralfms.FmsObjects.{RevisionHistoryEntry, DeviceConnectionInformation}
use wlan_cloud_ucentralfms.NewCommandHandler.{Nlohmann, removes, remove_device, run}
use wlan_cloud_ucentralfms.Orm.Engine.{done, delete_record, delete_records}
use wlan_cloud_ucentralfms.Orm.Engine.Laws.{IsTable, Accepts}
use wlan_cloud_ucentralfms.Orm.Statements.{delete_by, delete_where}
use wlan_cloud_ucentralfms.Service.{Env, State}
use wlan_cloud_ucentralfms.Storage.Devices.{delete_device}
use wlan_cloud_ucentralfms.Storage.History.{serial_clause, delete_history}

module _ (json : Nlohmann) (env : Env) {d_column : Text → DeviceConnectionInformation → Text}
    {d_holds : Text → DeviceConnectionInformation → Bool}
    {h_column : Text → RevisionHistoryEntry → Text} {h_holds : Text → RevisionHistoryEntry → Bool}
    (devices : IsTable env.device_engine d_column d_holds)
    (accepts_devices : Accepts env.device_engine)
    (history : IsTable env.history_engine h_column h_holds)
    (accepts_history : Accepts env.history_engine) where
  remove_device-rows :
      (serial_number : Text) (s : State env)
      → ((t : DeviceConnectionInformation)
          → In t (devices.rows (remove_device json env serial_number s).devices)
            ↔ (In t (devices.rows s.devices) × (d_column (codes "serialNumber") t ≢ serial_number)))
        × ((t : RevisionHistoryEntry)
            → In t (history.rows (remove_device json env serial_number s).history)
              ↔ (In t (history.rows s.history) × (h_holds (serial_clause serial_number) t ≡ false)))
  unfolding remove_device delete_device delete_history delete_record delete_records
  remove_device-rows serial_number s =
      let (db, e) = accepts_devices (delete_by (codes "serialNumber") serial_number) s.devices in
      let (db', e') = accepts_history (delete_where (serial_clause serial_number)) s.history in
      (
        rw (e, done) (λ t. devices.deleted (codes "serialNumber") serial_number s.devices db t e),
        rw (e', done) (λ t. history.deleted_where (serial_clause serial_number) s.history db' t e'),
      )

  -- A queue of one command, which asks for the removal of its device, when both tables take statements: exactly
  -- the rows of the device leave the table of devices, and exactly the entries that the clause selects
  -- leave the history.
  pub run-removes :
      (serial_number message : Text) (s : State env)
      → removes json serial_number message ≡ some true
      → ((t : DeviceConnectionInformation)
          → In t (devices.rows (run json env ((serial_number, message) ∷ []) s).2.devices)
            ↔ (In t (devices.rows s.devices) × (d_column (codes "serialNumber") t ≢ serial_number)))
        × ((t : RevisionHistoryEntry)
            → In t (history.rows (run json env ((serial_number, message) ∷ []) s).2.history)
              ↔ (In t (history.rows s.history) × (h_holds (serial_clause serial_number) t ≡ false)))
  unfolding run
  run-removes serial_number message s asked = rw asked (remove_device-rows serial_number s)

-- ===== src/ServiceModel/Devices.antt =====
-- Devices, their history and their report on the concrete service, and the handlers of messages.
use wlan_cloud_ucentralfms.AutoUpdater.{Updater}
use wlan_cloud_ucentralfms.Common.{
  ◌≡◌, refl, ◌≢◌, ◌↔◌, ◌⊎◌, true, false, ◌||◌, none, some, [], ◌∷◌, arith, if◌then◌else◌, num_Eq,
  ◌==◌, take, In, Text, codes, text_eq, text_Eq, is_empty,
}
use wlan_cloud_ucentralfms.FmsObjects.{
  RevisionHistoryEntry, DeviceConnectionInformation, DeviceReport,
}
use wlan_cloud_ucentralfms.NewCommandHandler.{Nlohmann, end_point, asks_removal, removes, run}
use wlan_cloud_ucentralfms.NewCommandHandler.Deletion.{run-removes}
use wlan_cloud_ucentralfms.NewConnectionHandler.{Node, apply_event, connection, ping}
use wlan_cloud_ucentralfms.NewConnectionHandler.Events.{queued, apply_event-queued}
use wlan_cloud_ucentralfms.Orm.Engine.{get_record}
use wlan_cloud_ucentralfms.Orm.Engine.Laws.{IsTable}
use wlan_cloud_ucentralfms.Orm.Engine.Model.{
  list_engine, list_engine-IsTable, list_engine-Accepts, list_engine-IsPaged,
}
use wlan_cloud_ucentralfms.ServiceModel.{
  device_column, device_holds, history_column, history_holds, env_model, sample_device, with_device,
}
use wlan_cloud_ucentralfms.Storage.Devices.{
  empty_report, get_device, set_device_revision, generate_device_report,
}
use wlan_cloud_ucentralfms.Storage.Devices.Counts.{counted, count, generate_device_report-counts}
use wlan_cloud_ucentralfms.Storage.Devices.Revisions.{
  expected_entry, set_device_revision-history, IsRecorded, set_device_revision-row,
}
use wlan_cloud_ucentralfms.Storage.History.{serial_clause}
use wlan_cloud_ucentralfms.FmsObjects.{
  RevisionHistoryEntry, DeviceConnectionInformation, DeviceReport,
}
use mathlib.Core.Option.{bind}

abbrev history_model :
    IsTable (list_engine history_column history_holds) history_column history_holds
history_model = list_engine-IsTable history_column history_holds

abbrev devices_model : IsTable (list_engine device_column device_holds) device_column device_holds
devices_model = list_engine-IsTable device_column device_holds

set_device_revision-history_example :
    In
      (expected_entry env_model history_model
        (list_engine-Accepts history_column history_holds)
        (codes "aa")
        (codes "ap")
        (codes "old")
        (codes "new")
        with_device)
      (history_model.rows
        (set_device_revision env_model
          (codes "aa")
          (codes "new")
          (codes "ap")
          []
          with_device).1.history)
    ↔ (In
          (expected_entry env_model history_model
            (list_engine-Accepts history_column history_holds)
            (codes "aa")
            (codes "ap")
            (codes "old")
            (codes "new")
            with_device)
          (history_model.rows with_device.history)
        ⊎ ((codes "old" ≢ codes "new")
            × (expected_entry env_model history_model
                  (list_engine-Accepts history_column history_holds)
                  (codes "aa")
                  (codes "ap")
                  (codes "old")
                  (codes "new")
                  with_device
                ≡ expected_entry env_model history_model
                    (list_engine-Accepts history_column history_holds)
                    (codes "aa")
                    (codes "ap")
                    (codes "old")
                    (codes "new")
                    with_device)))
unfolding get_device get_record text_eq
set_device_revision-history_example =
    set_device_revision-history env_model history_model
      (list_engine-Accepts history_column history_holds) (codes "aa") (codes "new") (codes "ap") []
      with_device (sample_device (codes "aa")) refl
      (expected_entry env_model history_model (list_engine-Accepts history_column history_holds)
        (codes "aa") (codes "ap") (codes "old") (codes "new") with_device)

set_device_revision-row_example :
    ((set_device_revision env_model (codes "aa") (codes "new") (codes "ap") [] with_device).0
      ≡ true)
    × IsRecorded env_model devices_model
        (list_engine-Accepts device_column device_holds)
        (codes "aa")
        (codes "new")
        (codes "ap")
        []
        with_device
        (devices_model.rows
          (set_device_revision env_model
            (codes "aa")
            (codes "new")
            (codes "ap")
            []
            with_device).1.devices)
        (get_device env_model (codes "aa") with_device)
set_device_revision-row_example =
    set_device_revision-row env_model devices_model (list_engine-Accepts device_column device_holds)
      (codes "aa") (codes "new") (codes "ap") [] with_device

generate_device_report-counts_example :
    (r : DeviceReport) × (generate_device_report env_model 1 empty_report with_device ≡ some r)
    × ((k : Text)
        → (counted k r.device_types ≡ count (λ d. d.device_type) k with_device.devices)
          × (counted k r.revisions ≡ count (λ d. d.revision) k with_device.devices)
          × (counted k r.status ≡ count (λ d. d.status) k with_device.devices)
          × (counted k r.end_points ≡ count (λ d. d.end_point) k with_device.devices)
          × (counted k r.oui ≡ count (λ d. take 6 d.serial_number) k with_device.devices))
unfolding list_engine-IsPaged
generate_device_report-counts_example =
    generate_device_report-counts env_model with_device
      (list_engine-IsPaged device_column device_holds) 1 (omega arith) (omega arith)

-- A JSON that has only the removal of its device in it: every member is there, and every text is "aa"
-- or the command.
abbrev removal : Nlohmann
removal = record {
  Value = Text;
  parse = λ t. if is_empty t then none else some t;
  contains_key = λ v k. k == codes "payload" || k == codes "command";
  at = λ v k. some (if k == codes "command" then codes "delete_device" else codes "aa");
  to_text = λ v. some v;
  is_text = λ v t. v == t;
}

removal_asked : removes removal (codes "aa") (codes "{}") ≡ some true
unfolding removes end_point asks_removal text_eq bind
removal_asked = refl

run-removes_example :
    ((t : DeviceConnectionInformation)
      → In t (
          devices_model.rows
            (run removal env_model ((codes "aa", codes "{}") ∷ []) with_device).2.devices)
        ↔ (In t (devices_model.rows with_device.devices)
            × (device_column (codes "serialNumber") t ≢ codes "aa")))
    × ((t : RevisionHistoryEntry)
        → In t (
            history_model.rows
              (run removal env_model ((codes "aa", codes "{}") ∷ []) with_device).2.history)
          ↔ (In t (history_model.rows with_device.history)
              × (history_holds (serial_clause (codes "aa")) t ≡ false)))
run-removes_example =
    run-removes removal env_model devices_model (list_engine-Accepts device_column device_holds)
      history_model (list_engine-Accepts history_column history_holds) (codes "aa") (codes "{}")
      with_device removal_asked

abbrev idle : Updater
idle = record { running = true; enabled = true; cache = []; queue = []; turn = 0; commands = [] }

abbrev node_model : Node env_model
node_model = record { service = with_device; updater = idle; devices_heard = [] }

apply_event-queued_example :
    ((apply_event env_model
        (codes "aa")
        []
        (connection (codes "aa") (codes "ap") (codes "old"))
        node_model).updater
      ≡ queued env_model (codes "aa") (codes "ap") (codes "old") with_device.latest_cache idle)
    × ((apply_event env_model
          (codes "aa")
          []
          (ping (codes "aa") (codes "ap") (codes "old"))
          node_model).updater
        ≡ queued env_model (codes "aa") (codes "ap") (codes "old") with_device.latest_cache idle)
apply_event-queued_example =
    apply_event-queued env_model (codes "aa") [] (codes "aa") (codes "ap") (codes "old") node_model

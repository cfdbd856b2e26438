-- ===== src/ServiceModel/Requests.antt =====
-- The handlers of requests, and the limit on their rate, on the concrete service.
use wlan_cloud_ucentralfms.Common.{
  ◌+◌, ◌-◌, ◌≡◌, refl, ◌≢◌, ◌↔◌, none, some, [], ◌∷◌, arith, In, codes,
}
use wlan_cloud_ucentralfms.FmsObjects.{RevisionHistoryEntry}
use wlan_cloud_ucentralfms.Orm.Engine.Laws.{IsTable}
use wlan_cloud_ucentralfms.Orm.Engine.Model.{list_engine, list_engine-IsTable, list_engine-Accepts}
use wlan_cloud_ucentralfms.RateLimiter.{let_through, at_most, let_through-period}
use wlan_cloud_ucentralfms.Rest.{not_found}
use wlan_cloud_ucentralfms.Rest.FirmwareHandler.{FirmwareUpdate, IsAnswered, put-row}
use wlan_cloud_ucentralfms.Rest.HistoryHandler.{delete_entry, delete_entry-not_found}
use wlan_cloud_ucentralfms.Service.{State}
use wlan_cloud_ucentralfms.ServiceModel.{
  firmware_column, firmware_holds, history_column, history_holds, env_model, two_rows,
}
use wlan_cloud_ucentralfms.Storage.Firmwares.{get_firmware}

abbrev entries : IsTable (list_engine history_column history_holds) history_column history_holds
entries = list_engine-IsTable history_column history_holds

abbrev firmwares :
    IsTable (list_engine firmware_column firmware_holds) firmware_column firmware_holds
firmwares = list_engine-IsTable firmware_column firmware_holds

abbrev old_entry_row : RevisionHistoryEntry
old_entry_row = record {
  id = codes "h1";
  serial_number = codes "aa";
  from_release = codes "old";
  to_release = codes "new";
  command_uuid = [];
  revision_id = codes "a";
  upgraded = 7;
}

abbrev with_entry : State env_model
with_entry = record two_rows { history = old_entry_row ∷ [] }

delete_entry-not_found_example :
    ((delete_entry env_model (codes "aa") (codes "h1") with_entry).0 ≡ not_found)
    × ((t : RevisionHistoryEntry)
        → In t
            (entries.rows (delete_entry env_model (codes "aa") (codes "h1") with_entry).1.history)
          ↔ (In t (entries.rows with_entry.history) × (history_column (codes "id") t ≢ codes "h1")))
delete_entry-not_found_example =
    delete_entry-not_found env_model entries (list_engine-Accepts history_column history_holds)
      (codes "aa") (codes "h1") with_entry refl refl

abbrev new_description : FirmwareUpdate
new_description = record { description = some (codes "tested"); notes = none }

put-row_example :
    IsAnswered env_model firmwares
      (list_engine-Accepts firmware_column firmware_holds)
      (codes "me")
      (codes "a")
      new_description
      two_rows
      (get_firmware env_model (codes "a") two_rows)
put-row_example =
    put-row env_model firmwares (list_engine-Accepts firmware_column firmware_holds) (codes "me")
      (codes "a") new_description two_rows refl

let_through-period_example :
    let_through 1000 2 none (500 ∷ 600 ∷ 700 ∷ 800 ∷ []) ≡ 1 + at_most 3 (2 - 1)
let_through-period_example =
    let_through-period 1000 2 500 (600 ∷ 700 ∷ 800 ∷ [])
      (omega arith, (omega arith, (omega arith, tt)))

-- ===== src/Rest/HistoryHandler.antt =====
-- src/RESTAPI/RESTAPI_historyHandler.cpp: the removal of an entry of the history.
use wlan_cloud_ucentralfms.Common.{
  ◌≡◌, refl, ◌≢◌, ◌↔◌, Bool, false, not, ◌||◌, if◌then◌else◌, In, Text, codes, is_empty,
}
use wlan_cloud_ucentralfms.FmsObjects.{RevisionHistoryEntry}
use wlan_cloud_ucentralfms.Orm.Statements.{delete_by}
use wlan_cloud_ucentralfms.Orm.Engine.{done, delete_record}
use wlan_cloud_ucentralfms.Orm.Engine.Laws.{IsTable, Accepts}
use wlan_cloud_ucentralfms.Service.{Env, State}
use wlan_cloud_ucentralfms.Storage.History.{delete_history_entry}
use wlan_cloud_ucentralfms.Rest.{Response, answer, id_or_serial_empty, ok, not_found, bad_request}

-- DoDelete; its answers stand as in the source.
unfoldable pub delete_entry : (env : Env) → Text → Text → State env → Response × State env
delete_entry env serial_number id s =
    if is_empty serial_number || is_empty id
    then (bad_request id_or_serial_empty, s)
    else let (done, s') = delete_history_entry env serial_number id s in
      (answer (not done) ok not_found, s')

module _ (env : Env) {column : Text → RevisionHistoryEntry → Text}
    {holds : Text → RevisionHistoryEntry → Bool} (table : IsTable env.history_engine column holds)
    (accepts : Accepts env.history_engine) where
  -- A request that names a serial number and an id, when the history takes statements: the entries with
  -- the id are removed, of any device, no others, and the answer is that nothing was found.
  pub delete_entry-not_found :
      (serial_number id : Text) (s : State env)
      → is_empty serial_number ≡ false
      → is_empty id ≡ false
      → ((delete_entry env serial_number id s).0 ≡ not_found)
        × ((t : RevisionHistoryEntry)
            → In t (table.rows (delete_entry env serial_number id s).1.history)
              ↔ (In t (table.rows s.history) × (column (codes "id") t ≢ id)))
  unfolding delete_entry delete_history_entry delete_record
  delete_entry-not_found serial_number id s named given =
      let (db, e) = accepts (delete_by (codes "id") id) s.history in
      rw (named, given, e, done) (refl, λ t. table.deleted (codes "id") id s.history db t e)

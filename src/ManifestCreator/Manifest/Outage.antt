-- ===== src/ManifestCreator/Manifest/Outage.antt =====
-- What a refresh leaves of the table of firmwares when the S3 bucket cannot be listed.
use mathlib.Core.Bool.{false≢true}
use wlan_cloud_ucentralfms.Common.{
  ℕ, suc, ◌≡◌, refl, sym, ◌∙◌, Bool, true, false, none, some, List, [], In, Text, codes, lookup,
}
use wlan_cloud_ucentralfms.Json.{Json}
use wlan_cloud_ucentralfms.FmsObjects.{FirmwareRow}
use wlan_cloud_ucentralfms.Orm.Statements.{select_all}
use wlan_cloud_ucentralfms.Orm.Engine.Laws.{IsTable, Accepts}
use wlan_cloud_ucentralfms.Service.{Env, State}
use wlan_cloud_ucentralfms.Storage.Firmwares.{
  remove_old_firmware, remove_old_db_entries_not_in_manifest,
}
use wlan_cloud_ucentralfms.Storage.Firmwares.Cleanup.{in_bucket, remove_old_db_entries-rows}
use wlan_cloud_ucentralfms.ManifestCreator.{S3BucketEntry, S3Client}
use wlan_cloud_ucentralfms.ManifestCreator.Bucket.{read_pages, read_bucket, failed}
use wlan_cloud_ucentralfms.ManifestCreator.Manifest.{
  compute_entries, compute_manifest, remove_staging, add_entries, add_manifest_to_db, store_bucket,
  run,
}

module _ (env : Env) {column : Text → FirmwareRow → Text} {holds : Text → FirmwareRow → Bool}
    (table : IsTable env.firmware_engine column holds) (accepts : Accepts env.firmware_engine)
    (id_column : (t : FirmwareRow) → column (codes "id") t ≡ t.id) {Var Object : Type 0}
    (J : Json Var Object) (client : S3Client) (uri_base : Text) where
  read_bucket-outage :
      (running : ℕ → Bool) (fuel : ℕ)
      → client.list_objects none ≡ none
      → read_bucket J client uri_base running (suc fuel) ≡ failed []
  unfolding read_bucket read_pages
  read_bucket-outage running fuel e = rw (e, read_pages) refl

  not-in_bucket : (t : Text) → in_bucket {V = S3BucketEntry} [] t ≡ false
  unfolding in_bucket lookup
  not-in_bucket t = refl

  store_nothing :
      (max_age k : ℕ) (s s' : State env)
      → remove_old_db_entries_not_in_manifest env {V = S3BucketEntry} [] s ≡ some (k, s')
      → store_bucket env J client uri_base max_age (failed []) s ≡ some (true, s')
  unfolding store_bucket add_manifest_to_db compute_manifest compute_entries remove_staging
      add_entries
  store_nothing max_age k s s' e = rw (e, add_manifest_to_db) refl

  -- When the first page of the bucket cannot be listed, run does not stop: it removes every row of the
  -- table of firmwares. (The table takes statements as SQL documents them, its rows can be read after
  -- the old ones have been removed, and no two of them share an id.)
  pub run-outage :
      (max_age fuel : ℕ) (running : ℕ → Bool) (s : State env) (ts : List FirmwareRow)
      → client.list_objects none ≡ none
      → env.firmware_engine.query select_all (remove_old_firmware env max_age s).firmwares ≡ some ts
      → ((t u : FirmwareRow)
          → In t (table.rows (remove_old_firmware env max_age s).firmwares)
          → In u (table.rows (remove_old_firmware env max_age s).firmwares)
          → t.id ≡ u.id
          → t ≡ u)
      → (s' : State env) × (run env J client uri_base max_age running (suc fuel) s
          ≡ some (true, s'))
        × ((t : FirmwareRow) → ¬ In t (table.rows s'.firmwares))
  unfolding run
  run-outage max_age fuel running s ts e readable unique =
      let s1 = remove_old_firmware env max_age s in
      let (k, s', removed, rows) =
        remove_old_db_entries-rows env table accepts id_column {V = S3BucketEntry} [] s1 ts readable
          unique in
      (
        s',
        rw (read_bucket-outage running fuel e) (store_nothing max_age k s1 s' removed),
        λ t at. false≢true (sym (not-in_bucket t.release) ∙ ((rows t).0 at).1),
      )

-- ===== src/ServiceModel/Firmwares.antt =====
-- The table of firmwares on the concrete service.
use wlan_cloud_ucentralfms.Common.{
  ℕ, ◌+◌, ◌-◌, ◌≡◌, refl, sym, ap, ◌∙◌, ◌↔◌, inl, inr, true, some, [], ◌∷◌, map, arith, In, codes,
  text_eq, text_eq_iff, Lacks, Map, lookup,
}
use wlan_cloud_ucentralfms.FmsObjects.{
  Firmware, FirmwareRow, firmware_of_tuple, firmware_convert, FirmwareAgeDetails,
}
use wlan_cloud_ucentralfms.LatestFirmwareCache.{find_latest_firmware}
use wlan_cloud_ucentralfms.LatestFirmwareCache.Newest.{IsNewest}
use wlan_cloud_ucentralfms.Orm.Engine.{get_record, get_records}
use wlan_cloud_ucentralfms.Orm.Engine.Laws.{IsTable}
use wlan_cloud_ucentralfms.Orm.Engine.Model.{
  list_engine, list_engine-IsTable, rows-list_engine, list_engine-Accepts, list_engine-IsPaged,
}
use wlan_cloud_ucentralfms.Orm.Where.{quote}
use wlan_cloud_ucentralfms.Service.{State, word64}
use wlan_cloud_ucentralfms.ServiceModel.{
  firmware_column, firmware_holds, env_model, firmware-ReadsFirmwares, sample_firmware, new_row,
  old_row, two_rows, new_entry, old_entry, cached,
}
use wlan_cloud_ucentralfms.Storage.Firmwares.{
  latest_clause, revision_clause, convert, add_firmware, get_firmware, get_firmware_by_revision,
  populate_latest_firmware_cache, compute_firmware_age, remove_old_db_entries_not_in_manifest,
}
use wlan_cloud_ucentralfms.Storage.Firmwares.Age.{compute_firmware_age-newer}
use wlan_cloud_ucentralfms.Storage.Firmwares.Cache.{
  announcements, populate_latest_firmware_cache-IsNewest,
}
use wlan_cloud_ucentralfms.Storage.Firmwares.Cleanup.{in_bucket, remove_old_db_entries-rows}
use wlan_cloud_ucentralfms.Storage.Firmwares.Latest.{add_firmware-latest, add_firmware-older}
use wlan_cloud_ucentralfms.FmsObjects.{
  Firmware, FirmwareRow, firmware_of_tuple, firmware_convert, FirmwareAgeDetails,
}
use mathlib.Core.Bool.{false≢true}

abbrev newer : Firmware
newer = sample_firmware (codes "ap") (codes "newest") 30

abbrev older : Firmware
older = sample_firmware (codes "ap") (codes "oldest") 5

abbrev pub firmwares_model :
    IsTable (list_engine firmware_column firmware_holds) firmware_column firmware_holds
firmwares_model = list_engine-IsTable firmware_column firmware_holds

ap_Lacks : Lacks quote (codes "ap")
ap_Lacks = (λ e. omega (arith, e), (λ e. omega (arith, e), tt))

add_firmware-older_example :
    ((add_firmware env_model older (cached new_entry)).0.latest ≡ true)
    × (find_latest_firmware
          (codes "ap")
          (add_firmware env_model older (cached new_entry)).2.latest_cache
        ≡ some new_entry)
unfolding find_latest_firmware lookup text_eq
add_firmware-older_example =
    add_firmware-older env_model older (cached new_entry) new_entry refl (omega arith)

abbrev bucket : Map ℕ
bucket = (codes "new", 1) ∷ []

add_firmware-latest_example :
    ((add_firmware env_model newer two_rows).1 ≡ true)
    × ((u : FirmwareRow)
        → (In u (firmwares_model.rows (add_firmware env_model newer two_rows).2.firmwares)
            × (firmware_holds (latest_clause (codes "ap")) u ≡ true))
          ↔ (u ≡ (convert env_model).to_tuple (add_firmware env_model newer two_rows).0))
unfolding latest_clause revision_clause text_eq
add_firmware-latest_example =
    add_firmware-latest env_model firmwares_model
      (list_engine-Accepts firmware_column firmware_holds) firmware-ReadsFirmwares newer two_rows
      (new_row ∷ []) ap_Lacks refl (omega arith)

other_ids : old_row.id ≡ new_row.id → ⊥
unfolding text_eq
other_ids e = false≢true ((text_eq_iff old_row.id new_row.id).1 e)

pub two_rows_unique :
    (t u : FirmwareRow)
    → In t (new_row ∷ old_row ∷ [])
    → In u (new_row ∷ old_row ∷ [])
    → t.id ≡ u.id
    → t ≡ u
two_rows_unique t u (inl a) (inr (inr x)) e = absurd x
two_rows_unique t u (inr (inl a)) (inr (inr x)) e = absurd x
two_rows_unique t u (inr (inr x)) h e = absurd x
two_rows_unique t u (inl a) (inl b) e = a ∙ sym b
two_rows_unique t u (inl a) (inr (inl b)) e =
    absurd (
      other_ids (ap (λ (x : FirmwareRow). x.id) (sym b) ∙ sym e ∙ ap (λ (x : FirmwareRow). x.id) a))
two_rows_unique t u (inr (inl a)) (inl b) e =
    absurd
      (other_ids (ap (λ (x : FirmwareRow). x.id) (sym a) ∙ e ∙ ap (λ (x : FirmwareRow). x.id) b))
two_rows_unique t u (inr (inl a)) (inr (inl b)) e = a ∙ sym b

remove_old_db_entries-rows_example :
    (k : ℕ) × (s' : State env_model) × (remove_old_db_entries_not_in_manifest env_model bucket
        two_rows
      ≡ some (k, s'))
    × ((t : FirmwareRow)
        → In t (firmwares_model.rows s'.firmwares)
          ↔ (In t (firmwares_model.rows two_rows.firmwares) × (in_bucket bucket t.release ≡ true)))
unfolding text_eq
remove_old_db_entries-rows_example =
    remove_old_db_entries-rows env_model firmwares_model
      (list_engine-Accepts firmware_column firmware_holds) (λ t. refl) bucket two_rows
      (new_row ∷ old_row ∷ []) refl
      (rw (rows-list_engine firmware_column firmware_holds two_rows.firmwares) two_rows_unique)

populate_latest_firmware_cache-IsNewest_example :
    (s' : State env_model) × (populate_latest_firmware_cache env_model 1 two_rows ≡ some s')
    × IsNewest
        (codes "ap")
        (announcements (map (convert env_model).of_tuple (new_row ∷ old_row ∷ [])))
        (find_latest_firmware (codes "ap") s'.latest_cache)
unfolding list_engine-IsPaged
populate_latest_firmware_cache-IsNewest_example =
    populate_latest_firmware_cache-IsNewest env_model
      (list_engine-IsPaged firmware_column firmware_holds) two_rows 1 (codes "ap") refl
      (omega arith)

compute_firmware_age-newer_example :
    (a : FirmwareAgeDetails) × (compute_firmware_age env_model
        (codes "ap")
        (codes "new")
        (cached old_entry)
      ≡ some a)
    × (a.age + (20 - 10) ≡ word64)
unfolding find_latest_firmware get_firmware get_firmware_by_revision get_record get_records lookup
    revision_clause latest_clause convert firmware_convert firmware_of_tuple text_eq
compute_firmware_age-newer_example =
    compute_firmware_age-newer env_model (codes "ap") (codes "new") (cached old_entry) old_entry
      (firmware_of_tuple (λ l. []) (λ t. []) old_row)
      (firmware_of_tuple (λ l. []) (λ t. []) new_row) refl refl refl (omega arith) (omega arith)

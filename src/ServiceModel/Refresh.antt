-- ===== src/ServiceModel/Refresh.antt =====
-- The refresh from the S3 bucket, on the concrete service and a bucket of one page.
use wlan_cloud_ucentralfms.Common.{
  ℕ, ◌≡◌, refl, ap, ◌∙◌, ◌≢◌, inl, inr, Bool, true, false, none, some, [], ◌∷◌, arith, In, Text,
  codes, text_eq, text_lt, has_prefix, contains, Map, lookup, insert,
}
use wlan_cloud_ucentralfms.FmsObjects.{FirmwareRow, firmware_convert}
use wlan_cloud_ucentralfms.Json.Model.{json_model}
use wlan_cloud_ucentralfms.ManifestCreator.{S3BucketEntry, S3Object, S3Page, S3Client}
use wlan_cloud_ucentralfms.ManifestCreator.Bucket.{
  put_manifest, put_image, release_of_image, has_manifest, manifest_fields, read_manifest,
  read_object, read_page, read_pages, read_bucket, out_of_fuel,
}
use wlan_cloud_ucentralfms.ManifestCreator.Bucket.Laws.{Ends, read_bucket-enough_fuel}
use wlan_cloud_ucentralfms.ManifestCreator.Manifest.{
  compute_entry, compute_entries, compute_manifest, remove_staging, add_entry, add_entries,
  add_manifest_to_db, store_bucket, run,
}
use wlan_cloud_ucentralfms.ManifestCreator.Manifest.Laws.{IsAccepted, compute_manifest-IsAccepted}
use wlan_cloud_ucentralfms.ManifestCreator.Manifest.Outage.{run-outage}
use wlan_cloud_ucentralfms.ManifestCreator.Refresh.{
  Refresh, run_update_task, advance, step, steps, no_thread, requested, thread_reads, thread_stores,
  thread_clears, thread_returns,
}
use wlan_cloud_ucentralfms.ManifestCreator.Refresh.Laws.{
  steps-carried_out, steps-overlapped, steps-malformed,
}
use wlan_cloud_ucentralfms.Orm.Engine.{get_records, delete_records}
use wlan_cloud_ucentralfms.Orm.Engine.Model.{rows-list_engine, list_engine-Accepts}
use wlan_cloud_ucentralfms.Service.{State, sub64}
use wlan_cloud_ucentralfms.ServiceModel.{
  firmware_column, firmware_holds, env_model, empty_state, new_row, old_row, two_rows,
}
use wlan_cloud_ucentralfms.ServiceModel.Firmwares.{firmwares_model, two_rows_unique}
use wlan_cloud_ucentralfms.Storage.Firmwares.{
  latest_clause, revision_clause, older_clause, convert, add_firmware, remove_old_firmware,
  get_firmware_by_name, remove_old_db_entries_not_in_manifest,
}
use mathlib.Core.Bool.{false≢true}
use mathlib.Core.Option.{some-injective}

-- The content of the manifest: the code of an object with its four members.
abbrev manifest_object : Map Text
manifest_object = insert (codes "image") (json_model.of_text (codes "ap-1-upgrade.bin")) (
    insert (codes "compatible") (json_model.of_text (codes "ap")) (
      insert (codes "revision") (json_model.of_text (codes "r1"))
        (insert (codes "timestamp") (json_model.of_number 950) [])))

abbrev manifest_file : S3Object
manifest_file = record {
  extension = codes "json";
  base_name = codes "ap-1";
  file_name = codes "ap-1.json";
  last_modified = 0;
  size = 10;
}

abbrev image_file : S3Object
image_file = record {
  extension = codes "bin";
  base_name = codes "ap-1-upgrade";
  file_name = codes "ap-1-upgrade.bin";
  last_modified = 900000;
  size = 77;
}

abbrev one_page : S3Page
one_page = record {
  contents = image_file ∷ manifest_file ∷ [];
  is_truncated = false;
  next_token = [];
}

abbrev good_client : S3Client
good_client = record {
  list_objects = λ token. some one_page;
  get_object = λ name. some (json_model.of_object manifest_object);
}

abbrev silent_client : S3Client
silent_client = record { list_objects = λ token. none; get_object = λ name. none }

-- Its manifests have no content, which is no JSON.
abbrev broken_client : S3Client
broken_client = record { list_objects = λ token. some one_page; get_object = λ name. some [] }

abbrev always : ℕ → Bool
always k = true

abbrev idle : Refresh env_model
idle = record { update_running = false; last_update = 0; phase = no_thread; service = empty_state }

steps-malformed_example :
    steps env_model json_model [] 100
      (requested ∷ thread_reads broken_client always 1 ∷ requested ∷ [])
      idle
    ≡ record {
      update_running = true;
      last_update = 0;
      phase = no_thread;
      service = remove_old_firmware env_model 100 empty_state;
    }
steps-malformed_example =
    steps-malformed env_model json_model [] 100 idle broken_client one_page manifest_file [] always
      0 (requested ∷ []) refl tt refl (inr (inl refl)) refl refl refl (λ k. refl)

run-outage_example :
    (s' : State env_model) × (run env_model json_model silent_client [] 100 always 1 two_rows
      ≡ some (true, s'))
    × ((t : FirmwareRow) → ¬ In t (firmwares_model.rows s'.firmwares))
unfolding remove_old_firmware older_clause revision_clause latest_clause text_eq convert
    firmware_convert delete_records
run-outage_example =
    run-outage env_model firmwares_model (list_engine-Accepts firmware_column firmware_holds)
      (λ t. refl) json_model silent_client [] 100 0 always two_rows (new_row ∷ old_row ∷ []) refl
      refl (rw (rows-list_engine firmware_column firmware_holds two_rows.firmwares) two_rows_unique)

-- What ReadBucket makes of the page, and the entry that ComputeManifest accepts.
abbrev read_entry : S3BucketEntry
read_entry = record {
  valid = false;
  s3_name = [];
  s3_content_manifest = json_model.of_object manifest_object;
  s3_time_stamp = 900;
  s3_size = 77;
  revision = codes "r1";
  image = codes "ap-1-upgrade.bin";
  compatible = codes "ap";
  timestamp = 950;
  uri = codes "u/ap-1-upgrade.bin";
}

abbrev accepted_entry : S3BucketEntry
accepted_entry = record read_entry { valid = true }

compute_manifest-IsAccepted_example : IsAccepted (sub64 1000 100) (codes "ap-1") accepted_entry
unfolding read_bucket read_pages read_page read_object read_manifest has_manifest manifest_fields
    put_manifest put_image release_of_image insert lookup text_eq text_lt compute_manifest
    compute_entries compute_entry
compute_manifest-IsAccepted_example =
    compute_manifest-IsAccepted json_model good_client (codes "u") always 1 1000 100
      ((codes "ap-1", read_entry) ∷ []) (codes "ap-1", accepted_entry) (inl refl) (inl refl) refl

abbrev after_refresh : State env_model
after_refresh = add_entries env_model ((codes "ap-1", accepted_entry) ∷ []) empty_state

steps-carried_out_example :
    steps env_model json_model
      (codes "u")
      100
      (requested
        ∷ requested
        ∷ thread_reads good_client always 1
        ∷ requested
        ∷ thread_stores
        ∷ thread_clears
        ∷ thread_returns
        ∷ [])
      idle
    ≡ record {
      update_running = false;
      last_update = 1000;
      phase = no_thread;
      service = after_refresh;
    }
unfolding steps step advance run_update_task run store_bucket read_bucket read_pages read_page
    read_object read_manifest has_manifest manifest_fields put_manifest put_image release_of_image
    insert lookup text_eq text_lt compute_manifest compute_entries compute_entry add_manifest_to_db
    remove_staging contains has_prefix remove_old_firmware remove_old_db_entries_not_in_manifest
    delete_records add_entries add_entry add_firmware get_firmware_by_name get_records
steps-carried_out_example =
    steps-carried_out env_model json_model (codes "u") 100 [] idle refl tt refl 1 1 0 good_client
      always 1 after_refresh refl

steps-overlapped_example :
    steps env_model json_model
      (codes "u")
      100
      (requested
        ∷ thread_reads good_client always 1
        ∷ thread_stores
        ∷ thread_clears
        ∷ requested
        ∷ thread_returns
        ∷ requested
        ∷ [])
      idle
    ≡ record {
      update_running = true;
      last_update = 1000;
      phase = no_thread;
      service = after_refresh;
    }
unfolding steps step advance run_update_task run store_bucket read_bucket read_pages read_page
    read_object read_manifest has_manifest manifest_fields put_manifest put_image release_of_image
    insert lookup text_eq text_lt compute_manifest compute_entries compute_entry add_manifest_to_db
    remove_staging contains has_prefix remove_old_firmware remove_old_db_entries_not_in_manifest
    delete_records add_entries add_entry add_firmware get_firmware_by_name get_records
steps-overlapped_example =
    steps-overlapped env_model json_model (codes "u") 100 idle 0 0 0 good_client always 1
      after_refresh (requested ∷ []) refl refl refl

one_page-Ends : Ends good_client 1 none
one_page-Ends page e t =
    false≢true (ap (λ (p : S3Page). p.is_truncated) (some-injective one_page page e) ∙ t)

read_bucket-enough_fuel_example : read_bucket json_model good_client [] always 1 ≢ out_of_fuel
read_bucket-enough_fuel_example =
    read_bucket-enough_fuel json_model good_client [] always 1 1 one_page-Ends (omega arith)

-- ===== src/ManifestCreator/Manifest.antt =====
-- ManifestCreator::ComputeManifest, AddManifestToDB and run (src/ManifestCreator.cpp).
pub mod Outage
pub mod Laws
use wlan_cloud_ucentralfms.Common.{
  ℕ, ◌+◌, Bool, true, false, Option, none, some, [], ◌∷◌, ◌++◌, ltb, if◌then◌else◌, ◌>>=◌, num_Eq,
  ◌==◌, Text, codes, text_Eq, contains,
}
use wlan_cloud_ucentralfms.Json.{Json}
use wlan_cloud_ucentralfms.FmsObjects.{Firmware}
use wlan_cloud_ucentralfms.FmsObjects.Firmwares.{fresh_firmware}
use wlan_cloud_ucentralfms.Service.{Env, State, sub64}
use wlan_cloud_ucentralfms.Storage.Firmwares.{
  add_firmware, remove_old_firmware, get_firmware_by_name, remove_old_db_entries_not_in_manifest,
}
use wlan_cloud_ucentralfms.ManifestCreator.{S3BucketEntry, S3BucketContent, S3Client}
use wlan_cloud_ucentralfms.ManifestCreator.Bucket.{
  ReadOutcome, has_manifest, get_text, get_number, read_bucket, finished, failed, thrown,
  out_of_fuel,
}

-- An assignment that throws ends the try block, with what was assigned before it.
abbrev pub when_read : {A : Type 0} → Option A → S3BucketEntry → (A → S3BucketEntry) → S3BucketEntry
when_read none e k = e
when_read (some a) e k = k a

abbrev pub image_name : Text → Text
image_name name = name ++ codes "-upgrade.bin"

-- The comparison of the image with the name of the entry.
abbrev pub check_image : Text → S3BucketEntry → S3BucketEntry
check_image name e = record e { valid = image_name name == e.image }

module _ {Var Object : Type 0} (J : Json Var Object) where
  -- The members of a manifest that is young enough.
  abbrev pub accept_manifest : Text → Object → S3BucketEntry → S3BucketEntry
  accept_manifest name o e = when_read (get_text J (codes "compatible") o) e (λ c.
      let e1 : S3BucketEntry = record e { compatible = c } in
      when_read (get_text J (codes "revision") o) e1 (λ r.
        let e2 : S3BucketEntry = record e1 { revision = r } in
        when_read (get_text J (codes "image") o) e2
          (λ i. check_image name (record e2 { image = i }))))

  abbrev pub weigh_manifest : Text → ℕ → Object → S3BucketEntry → S3BucketEntry
  weigh_manifest name limit o e =
      if ltb limit e.timestamp then accept_manifest name o e else record e { valid = false }

  abbrev pub check_manifest : Text → ℕ → Object → S3BucketEntry → S3BucketEntry
  check_manifest name limit o e =
      let read =
        when_read (get_number J (codes "timestamp") o) e
          (λ t. weigh_manifest name limit o (record e { timestamp = t })) in
      if has_manifest J o then read else record e { valid = false }

  unfoldable pub compute_entry : Text → ℕ → S3BucketEntry → S3BucketEntry
  unfolding has_manifest
  compute_entry name limit e =
      when_read (J.parse e.s3_content_manifest >>= J.to_object) e
        (λ o. check_manifest name limit o e)

  unfoldable pub compute_entries : ℕ → S3BucketContent → S3BucketContent
  unfolding compute_entry
  compute_entries limit [] = []
  compute_entries limit ((name, e) ∷ b) =
      (name, compute_entry name limit e) ∷ compute_entries limit b

  -- Limit = Now() - MaxAge_
  unfoldable pub compute_manifest : ℕ → ℕ → S3BucketContent → S3BucketContent
  unfolding compute_entries
  compute_manifest now max_age b = compute_entries (sub64 now max_age) b

-- The entries that stay: those whose URI does not contain "-staging-".
unfoldable pub remove_staging : S3BucketContent → S3BucketContent
remove_staging [] = []
remove_staging ((name, e) ∷ b) =
    if contains (codes "-staging-") e.uri then remove_staging b else (name, e) ∷ remove_staging b

module _ (env : Env) where
  abbrev pub firmware_of_entry : Text → S3BucketEntry → ℕ → Text → Firmware
  firmware_of_entry release e now id = record fresh_firmware {
    id = id;
    release = release;
    size = e.s3_size;
    created = now;
    image_date = e.s3_time_stamp;
    image = e.image;
    uri = e.uri;
    revision = e.revision;
    device_type = e.compatible;
  }

  abbrev pub add_when_missing : Text → S3BucketEntry → State env → Option Firmware → State env
  add_when_missing release e s (some f) = s
  add_when_missing release e s none =
      (add_firmware env (firmware_of_entry release e s.now (env.create_uuid s.uuids))
        (record s { uuids = s.uuids + 1 })).2

  -- One round of the last loop of AddManifestToDB.
  unfoldable pub add_entry : Text → S3BucketEntry → State env → State env
  add_entry release e s =
      if e.valid
      then add_when_missing release e s (get_firmware_by_name env release e.compatible s)
      else s

  unfoldable pub add_entries : S3BucketContent → State env → State env
  unfolding add_entry
  add_entries [] s = s
  add_entries ((release, e) ∷ b) s = add_entries b (add_entry release e s)

  -- `none`: the exception of RemoveOldDBEntriesNotInManifest.
  unfoldable pub add_manifest_to_db : S3BucketContent → State env → Option (State env)
  unfolding add_entries remove_staging
  add_manifest_to_db b s =
      let kept = remove_staging b in
      elim (remove_old_db_entries_not_in_manifest env kept s) [
        | none ↦ none
        | some (removed, s') ↦ some (add_entries kept s')
      ]

  module _ {Var Object : Type 0} (J : Json Var Object) (client : S3Client) (uri_base : Text) where
    abbrev pub or_thrown : State env → Option (State env) → Option (Bool × State env)
    or_thrown s none = some (false, s)
    or_thrown s (some s') = some (true, s')

    -- What run does with the bucket, whatever ReadBucket returned: false when an exception leaves it;
    -- `none` when the pages were more than the fuel.
    unfoldable pub store_bucket : ℕ → ReadOutcome → State env → Option (Bool × State env)
    unfolding add_manifest_to_db compute_manifest
    store_bucket max_age (finished b) s =
        or_thrown s (add_manifest_to_db (compute_manifest J s.now max_age b) s)
    store_bucket max_age (failed b) s =
        or_thrown s (add_manifest_to_db (compute_manifest J s.now max_age b) s)
    store_bucket max_age thrown s = some (false, s)
    store_bucket max_age out_of_fuel s = none

    -- ManifestCreator::run, up to the two members that it sets at its end.
    unfoldable pub run : ℕ → (ℕ → Bool) → ℕ → State env → Option (Bool × State env)
    unfolding store_bucket read_bucket
    run max_age running fuel s =
        store_bucket max_age (read_bucket J client uri_base running fuel)
          (remove_old_firmware env max_age s)

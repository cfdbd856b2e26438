-- ===== src/ManifestCreator/Bucket.antt =====
-- ManifestCreator::ReadBucket (src/ManifestCreator.cpp).
pub mod Laws
pub mod Valid
use wlan_cloud_ucentralfms.Common.{
  ℕ, zero, suc, ◌+◌, ◌-◌, ◌/◌, ◌%◌, ◌^◌, Bool, true, false, ◌&&◌, Option, none, some, List, [], ◌∷◌,
  ◌++◌, if◌then◌else◌, ◌>>=◌, num_Eq, ◌==◌, length, take, Text, codes, text_Eq, lookup, insert,
}
use wlan_cloud_ucentralfms.Json.{Json}
use wlan_cloud_ucentralfms.ManifestCreator.{S3BucketEntry, S3BucketContent, S3Object, S3Client}

-- What ReadBucket leaves: true, false, or an exception that it does not catch.
pub data ReadOutcome : Type 0 where
  finished failed : S3BucketContent → ReadOutcome
  thrown out_of_fuel : ReadOutcome

-- The four members of a manifest.
pub record ManifestFields : Type 0 where
  pub timestamp : ℕ
  pub compatible : Text
  pub revision : Text
  pub image : Text

abbrev new_bucket_entry : S3BucketEntry
new_bucket_entry = record {
  valid = false;
  s3_name = [];
  s3_content_manifest = [];
  s3_time_stamp = 0;
  s3_size = 0;
  revision = [];
  image = [];
  compatible = [];
  timestamp = 0;
  uri = [];
}

abbrev pub or_new : Option S3BucketEntry → S3BucketEntry
or_new none = new_bucket_entry
or_new (some e) = e

-- Bucket.find(Release), and the entry with its fields set, or a new one emplaced.
unfoldable pub put_manifest : Text → Text → ManifestFields → S3BucketContent → S3BucketContent
put_manifest release content m b =
    insert release
      (record (or_new (lookup release b)) {
        timestamp = m.timestamp;
        compatible = m.compatible;
        revision = m.revision;
        image = m.image;
        s3_content_manifest = content;
      })
      b

abbrev name_of : Option S3BucketEntry → Text → Text
name_of none release = []
name_of (some e) release = release

unfoldable pub put_image : Text → ℕ → ℕ → Text → S3BucketContent → S3BucketContent
put_image release time size uri b =
    insert release
      (record (or_new (lookup release b)) {
        s3_time_stamp = time;
        s3_size = size;
        s3_name = name_of (lookup release b) release;
        uri = uri;
      })
      b

-- FileName.getBaseName().substr(0, size - 8), where size - 8 wraps around at 64 bits.
unfoldable pub release_of_image : Text → Text
release_of_image base = take ((length base + (2 ^ 64 - 8)) % 2 ^ 64) base

abbrev pub is_some : {A : Type 0} → Option A → Bool
is_some none = false
is_some (some a) = true

module _ {Var Object : Type 0} (J : Json Var Object) where
  abbrev pub has : Text → Object → Bool
  has f o = is_some (J.get f o)

  unfoldable pub has_manifest : Object → Bool
  has_manifest o =
      has (codes "image") o
      && has (codes "compatible") o
      && has (codes "revision") o
      && has (codes "timestamp") o

  abbrev pub get_text : Text → Object → Option Text
  get_text f o = J.get f o >>= J.to_text

  abbrev pub get_number : Text → Object → Option ℕ
  get_number f o = J.get f o >>= J.to_number

  -- The conversions, in the order of ReadBucket.
  unfoldable pub manifest_fields : Object → Option ManifestFields
  manifest_fields o = do
    timestamp ← get_number (codes "timestamp") o
    compatible ← get_text (codes "compatible") o
    revision ← get_text (codes "revision") o
    image ← get_text (codes "image") o
    some (record {
      timestamp = timestamp;
      compatible = compatible;
      revision = revision;
      image = image;
    })

  abbrev pub put_parsed : Text → Text → Object → S3BucketContent → Option S3BucketContent
  put_parsed release content o b =
      if has_manifest o
      then (do m ← manifest_fields o; some (put_manifest release content m b))
      else some b

  -- An object with a manifest; the parser is under no try, so that `none` leaves ReadBucket.
  unfoldable pub read_manifest : Text → Option Text → S3BucketContent → Option S3BucketContent
  read_manifest release none b = some b
  read_manifest release (some content) b = do
    v ← J.parse content
    o ← J.to_object v
    put_parsed release content o b

  module _ (client : S3Client) (uri_base : Text) where
    -- One object of a page.
    unfoldable pub read_object : S3Object → S3BucketContent → Option S3BucketContent
    read_object x b =
        if x.extension == codes "json"
        then read_manifest x.base_name (client.get_object x.file_name) b
        else if x.extension == codes "bin"
        then some (
            put_image (release_of_image x.base_name) (x.last_modified / 1000) x.size
              (uri_base ++ (codes "/" ++ x.file_name)) b)
        else some b

    -- Running_ is read before each object, by the number of objects before it.
    unfoldable pub read_page : (ℕ → Bool) → ℕ → List S3Object → S3BucketContent → ReadOutcome
    read_page running count [] b = finished b
    read_page running count (x ∷ xs) b =
        let rest : ReadOutcome = elim (read_object x b) [
          | none ↦ thrown
          | some b' ↦ read_page running (suc count) xs b'
        ] in
        if running count then rest else failed b

    -- The loop over the pages; `fuel` bounds their number.
    unfoldable pub read_pages : (ℕ → Bool) → ℕ → ℕ → Option Text → S3BucketContent → ReadOutcome
    read_pages running zero count token b = out_of_fuel
    read_pages running (suc fuel) count token b = elim (client.list_objects token) [
      | none ↦ failed b
      | some page ↦ elim (read_page running count page.contents b) [
        | finished b' ↦
            let rest =
              read_pages running fuel (count + length page.contents) (some page.next_token) b' in
            if page.is_truncated then rest else finished b'
        | failed b' ↦ failed b'
        | thrown ↦ thrown
        | out_of_fuel ↦ out_of_fuel
      ]
    ]

    unfoldable pub read_bucket : (ℕ → Bool) → ℕ → ReadOutcome
    read_bucket running fuel = read_pages running fuel 0 none []

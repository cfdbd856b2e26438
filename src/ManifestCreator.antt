-- ===== src/ManifestCreator.antt =====
-- src/ManifestCreator.cpp: the refresh of the table of firmwares from the manifests in an S3 bucket.
-- The S3 client, the paths of Poco and the JSON library are parameters.
pub mod Bucket
pub mod Refresh
pub mod Manifest
use wlan_cloud_ucentralfms.Common.{ℕ, Bool, Option, List, Text, Map}

-- struct S3BucketEntry
pub record S3BucketEntry : Type 0 where
  pub valid : Bool
  pub s3_name : Text
  pub s3_content_manifest : Text
  pub s3_time_stamp : ℕ
  pub s3_size : ℕ
  pub revision : Text
  pub image : Text
  pub compatible : Text
  pub timestamp : ℕ
  pub uri : Text

-- S3BucketContent: the entries by release.
abbrev pub S3BucketContent : Type 0
S3BucketContent = Map S3BucketEntry

-- What the source asks of an object of the bucket, with the parts of Poco::Path(Object.GetKey()), and
-- of a page of ListObjectsV2.
pub record S3Object : Type 0 where
  pub extension : Text
  pub base_name : Text
  pub file_name : Text
  pub last_modified : ℕ
  pub size : ℕ

pub record S3Page : Type 0 where
  pub contents : List S3Object
  pub is_truncated : Bool
  pub next_token : Text

-- The S3 client: a page by its continuation token (none for the first page, none for an outcome that
-- is no success), and the content of an object by its name.
pub record S3Client : Type 0 where
  pub list_objects : Option Text → Option S3Page
  pub get_object : Text → Option Text

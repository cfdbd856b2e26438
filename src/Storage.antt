-- ===== src/Storage.antt =====
-- src/StorageService.{h,cpp}: the tables, and what the handlers ask of Storage itself.
pub mod Firmwares
pub mod History
pub mod Devices
use wlan_cloud_ucentralfms.Common.{Text}

-- TrimRevision: the cut to 63 characters is commented out in the source.
unfoldable pub trim_revision : Text → Text
trim_revision r = r

-- ===== src/LatestFirmwareCache/Tests.antt =====
-- The cache on concrete announcements.
use wlan_cloud_ucentralfms.LatestFirmwareCache.History.{Announcement, after}
use wlan_cloud_ucentralfms.Common.{
  ℕ, ◌≡◌, refl, Option, none, some, List, [], ◌∷◌, num_Eq, Text, codes, text_eq, text_Eq, text_lt,
  lookup, insert,
}
use wlan_cloud_ucentralfms.PocoModel.{poco_model}
use wlan_cloud_ucentralfms.LatestFirmwareCache.{
  LatestFirmwareCacheEntry, is_rc, add_to_cache, find_latest_firmware, find_latest_rc_only_firmware,
}
use wlan_cloud_ucentralfms.LatestFirmwareCache.Newest.{IsNewest, find_latest_firmware-after}

abbrev build : Text → Text → Text → ℕ → Announcement
build device_type id revision time_stamp = record {
  device_type = device_type;
  entry = record { id = id; time_stamp = time_stamp; revision = revision };
}

-- Newest call first: an old build is announced last, and two builds share a time stamp.
abbrev history : List Announcement
history =
    build (codes "ea8300") (codes "id4") (codes "OpenWrt / TIP-v2.4.0") 10
    ∷ build (codes "ea8300") (codes "id3") (codes "OpenWrt / TIP-devel-1") 30
    ∷ build (codes "ecw5211") (codes "id2") (codes "OpenWrt / TIP-v2.5.0") 20
    ∷ build (codes "ea8300") (codes "id1") (codes "OpenWrt / TIP-v2.5.0") 30
    ∷ []

found_id : Option LatestFirmwareCacheEntry → Text
found_id none = []
found_id (some e) = e.id

ties_go_to_the_last :
    found_id (find_latest_firmware (codes "ea8300") (after poco_model history)) ≡ codes "id3"
unfolding found_id find_latest_firmware after add_to_cache lookup insert text_eq text_lt is_rc
ties_go_to_the_last = refl

rc_is_separate :
    found_id (find_latest_rc_only_firmware (codes "ea8300") (after poco_model history))
    ≡ codes "id1"
unfolding found_id find_latest_rc_only_firmware after add_to_cache lookup insert text_eq text_lt
    is_rc
rc_is_separate = refl

find_latest_firmware-after_example :
    IsNewest
      (codes "ea8300")
      history
      (find_latest_firmware (codes "ea8300") (after poco_model history))
find_latest_firmware-after_example = find_latest_firmware-after poco_model (codes "ea8300") history

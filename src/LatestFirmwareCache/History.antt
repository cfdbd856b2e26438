-- ===== src/LatestFirmwareCache/History.antt =====
-- Histories of announcements, and what a history leaves in the cache.
use wlan_cloud_ucentralfms.Common.{
  Text, ◌==◌, text_Eq, List, [], ◌∷◌, keep, any_of, ◌≡◌, refl, arith, set_has, set_has-set_insert,
}
use wlan_cloud_ucentralfms.Poco.{Poco}
use wlan_cloud_ucentralfms.LatestFirmwareCache.{
  LatestFirmwareCache, LatestFirmwareCacheEntry, empty_cache, is_rc, add_to_cache,
}

-- One call of AddToCache.
pub record Announcement : Type 0 where
  pub device_type : Text
  pub entry : LatestFirmwareCacheEntry

unfoldable pub announce : Poco → Announcement → LatestFirmwareCache → LatestFirmwareCache
announce poco a c =
    (add_to_cache poco a.device_type a.entry.revision a.entry.id a.entry.time_stamp c).0

-- The calls of a history, the newest call first.
unfoldable pub after : Poco → List Announcement → LatestFirmwareCache
unfolding announce
after poco [] = empty_cache
after poco (a ∷ h) = announce poco a (after poco h)

-- The announcements of release candidates.
abbrev pub rc_only : Poco → List Announcement → List Announcement
rc_only poco = keep (λ a. is_rc poco a.entry.revision)

module _ (poco : Poco) where
  -- The cache of release candidates is the main cache of a service that heard of nothing else:
  -- after any history of AddToCache calls.
  pub rc_cache-after :
      (h : List Announcement) → (after poco h).rc_cache ≡ (after poco (rc_only poco h)).cache
  unfolding after add_to_cache
  rc_cache-after [] = refl
  rc_cache-after (a ∷ h) = ground (arith, rc_cache-after h)

  -- After any history of AddToCache calls GetDevices returns exactly the device types of the history.
  pub device_set-after :
      (h : List Announcement) (d : Text)
      → set_has d (after poco h).device_set ≡ any_of (λ a. a.device_type == d) h
  unfolding after add_to_cache set_has
  device_set-after [] d = refl
  device_set-after (a ∷ h) d =
      ground
        (arith, device_set-after h d, set_has-set_insert a.device_type d (after poco h).device_set)

  -- After any history of AddToCache calls GetRevisions returns exactly the revisions of the history.
  pub revision_set-after :
      (h : List Announcement) (r : Text)
      → set_has r (after poco h).revision_set ≡ any_of (λ a. a.entry.revision == r) h
  unfolding after add_to_cache set_has
  revision_set-after [] r = refl
  revision_set-after (a ∷ h) r = ground (
    arith,
    revision_set-after h r,
    set_has-set_insert a.entry.revision r (after poco h).revision_set,
  )

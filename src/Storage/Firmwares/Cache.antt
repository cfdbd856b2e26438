-- ===== src/Storage/Firmwares/Cache.antt =====
-- LatestFirmwareCache after a restart: what PopulateLatestFirmwareCache makes of the table.
use mathlib.Core.Path.{subst}
use wlan_cloud_ucentralfms.Common.{
  ℕ, ◌*◌, ◌<◌, ◌≡◌, refl, sym, ap, ◌∙◌, some, List, [], ◌∷◌, ◌++◌, map, append-nil, append_assoc,
  length, Text,
}
use wlan_cloud_ucentralfms.FmsObjects.{Firmware}
use wlan_cloud_ucentralfms.LatestFirmwareCache.{empty_cache, find_latest_firmware}
use wlan_cloud_ucentralfms.LatestFirmwareCache.History.{Announcement, announce, after}
use wlan_cloud_ucentralfms.LatestFirmwareCache.Newest.{IsNewest, find_latest_firmware-after}
use wlan_cloud_ucentralfms.Orm.Engine.{batch}
use wlan_cloud_ucentralfms.Orm.Engine.Pages.{IsPaged, visit_all, iterate-visit_all}
use wlan_cloud_ucentralfms.Service.{Env, State}
use wlan_cloud_ucentralfms.Storage.Firmwares.{convert, to_cache, populate_latest_firmware_cache}

-- The announcement of a row's firmware.
abbrev pub announcement : Firmware → Announcement
announcement f = record {
  device_type = f.device_type;
  entry = record { id = f.id; time_stamp = f.image_date; revision = f.revision };
}

-- The announcements of the rows, the row that is read last first.
unfoldable pub announcements : List Firmware → List Announcement
announcements [] = []
announcements (f ∷ fs) = announcements fs ++ (announcement f ∷ [])

module _ (env : Env) where
  visit_all-after :
      (fs : List Firmware) (h : List Announcement)
      → visit_all (to_cache env) fs (after env.poco h) ≡ after env.poco (announcements fs ++ h)
  unfolding visit_all announcements after announce
  visit_all-after [] h = refl
  visit_all-after (f ∷ fs) h =
      visit_all-after fs (announcement f ∷ h)
      ∙ ap (after env.poco) (sym (append_assoc (announcements fs) (announcement f ∷ []) h))

  visited :
      (paged : IsPaged env.firmware_engine) (s : State env) (fuel : ℕ)
      → s.latest_cache ≡ empty_cache
      → length (paged.listing [] s.firmwares) < fuel * batch
      → populate_latest_firmware_cache env fuel s
        ≡ some (record s {
          latest_cache =
              visit_all
                (to_cache env)
                (map (convert env).of_tuple (paged.listing [] s.firmwares))
                empty_cache;
        })
  unfolding populate_latest_firmware_cache
  visited paged s fuel start h =
      let whole =
        iterate-visit_all (convert env) env.firmware_engine paged (to_cache env) [] s.firmwares fuel
          s.latest_cache h in
      rw (populate_latest_firmware_cache, whole)
        (ap
          (λ c. some (record s {
            latest_cache =
                visit_all (to_cache env) (map (convert env).of_tuple (paged.listing [] s.firmwares))
                  c;
          }))
          start)

  -- PopulateLatestFirmwareCache on the empty cache of a restarted service, when the table lists its
  -- rows in one order and there are more batches than they fill: it ends, and the cached entry of every device type is the newest of the rows of that
  -- type, and of equally new ones the last that was read.
  pub populate_latest_firmware_cache-IsNewest :
      (paged : IsPaged env.firmware_engine) (s : State env) (fuel : ℕ) (d : Text)
      → s.latest_cache ≡ empty_cache
      → length (paged.listing [] s.firmwares) < fuel * batch
      → (s' : State env) × (populate_latest_firmware_cache env fuel s ≡ some s')
        × IsNewest d
            (announcements (map (convert env).of_tuple (paged.listing [] s.firmwares)))
            (find_latest_firmware d s'.latest_cache)
  unfolding after
  populate_latest_firmware_cache-IsNewest paged s fuel d start h =
      let fs = map (convert env).of_tuple (paged.listing [] s.firmwares) in
      (
        record s { latest_cache = visit_all (to_cache env) fs empty_cache },
        visited paged s fuel start h,
        subst (λ c. IsNewest d (announcements fs) (find_latest_firmware d c))
            (ap (after env.poco) (sym (append-nil (announcements fs)))
              ∙ sym (visit_all-after fs []))
            (find_latest_firmware-after env.poco d (announcements fs)),
      )

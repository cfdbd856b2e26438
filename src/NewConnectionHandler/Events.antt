-- ===== src/NewConnectionHandler/Events.antt =====
-- What an event of a device changes.
use wlan_cloud_ucentralfms.Common.{
  ◌≡◌, refl, ap, ◌∙◌, inl, inr, Bool, false, not, ◌&&◌, Option, none, some, [], ◌∷◌, ◌++◌,
  if◌then◌else◌, Bool-cases, Option-cases, num_Eq, ◌==◌, Text, text_Eq, lookup,
}
use wlan_cloud_ucentralfms.FmsObjects.{FirmwareAgeDetails, DeviceConnectionInformation}
use wlan_cloud_ucentralfms.LatestFirmwareCache.{
  LatestFirmwareCacheEntry, LatestFirmwareCache, find_latest_firmware, has_revision, is_latest,
}
use wlan_cloud_ucentralfms.Service.{Env, State}
use wlan_cloud_ucentralfms.Storage.Firmwares.{compute_firmware_age}
use wlan_cloud_ucentralfms.Storage.Devices.{get_device, set_revision, set_device_revision}
use wlan_cloud_ucentralfms.Storage.History.{add_history, add_revision}
use wlan_cloud_ucentralfms.AutoUpdater.{Updater, to_be_upgraded}
use wlan_cloud_ucentralfms.NewConnectionHandler.{
  Node, ask_upgrade, record_revision, hear, known_age, apply_event, connection, ping,
}

module _ (env : Env) where
  add_revision-latest_cache :
      (serial_number device_type old new : Text) (s : State env)
      → (add_revision env serial_number device_type old new s).1.latest_cache ≡ s.latest_cache
  unfolding add_revision add_history
  add_revision-latest_cache serial_number device_type old new s = refl

  set_revision-latest_cache :
      (serial_number revision device_type end_point : Text) (o : Option DeviceConnectionInformation)
      (s : State env)
      → (set_revision env serial_number revision device_type end_point o s).1.latest_cache
        ≡ s.latest_cache
  set_revision-latest_cache serial_number revision device_type end_point none s = refl
  set_revision-latest_cache serial_number revision device_type end_point (some d) s =
      elim (Bool-cases (d.revision == revision)) [
        | inl unchanged ↦ rw unchanged refl
        | inr changed ↦
            rw changed (add_revision-latest_cache serial_number device_type d.revision revision s)
      ]

  record_revision-latest_cache :
      (serial_number revision device_type end_point : Text) (n : Node env)
      → (record_revision env serial_number revision device_type end_point n).service.latest_cache
        ≡ n.service.latest_cache
  unfolding set_device_revision
  record_revision-latest_cache serial_number revision device_type end_point n =
      set_revision-latest_cache serial_number revision device_type end_point
        (get_device env serial_number n.service) n.service

  known_age-latest_cache :
      (o : Option FirmwareAgeDetails) (f : Node env → Node env) (n : Node env)
      → ((m : Node env)
          → ((f m).service.latest_cache ≡ m.service.latest_cache) × ((f m).updater ≡ m.updater))
      → ((known_age env o f n).service.latest_cache ≡ n.service.latest_cache)
        × ((known_age env o f n).updater ≡ n.updater)
  known_age-latest_cache none f n keeps = (refl, refl)
  known_age-latest_cache (some a) f n keeps = keeps n

  -- The queue behind an event: the device stands behind the others when the auto-updater is enabled and
  -- the cache does not have the revision as that of the latest firmware of the type.
  abbrev pub holds : Text → Option LatestFirmwareCacheEntry → Bool
  holds revision none = false
  holds revision (some e) = e.revision == revision

  abbrev pub queued : Text → Text → Text → LatestFirmwareCache → Updater → Updater
  queued key device_type revision c u = record u {
    queue =
        if u.enabled && not (holds revision (find_latest_firmware device_type c))
        then u.queue ++ (key, device_type) ∷ []
        else u.queue;
  }

  is_latest-holds :
      (device_type revision : Text) (c : LatestFirmwareCache)
      → is_latest device_type revision c ≡ holds revision (find_latest_firmware device_type c)
  unfolding is_latest has_revision find_latest_firmware
  is_latest-holds device_type revision c = elim (Option-cases (lookup device_type c.cache)) [
    | inl e ↦ rw (e, has_revision, holds) refl
    | inr (l, e) ↦ rw (e, has_revision, holds) refl
  ]

  asked_updater :
      (key device_type : Text) (b : Bool) (n : Node env)
      → (if b then n else record n { updater = to_be_upgraded key device_type n.updater }).updater
        ≡ record n.updater {
          queue =
              if n.updater.enabled && not b
              then n.updater.queue ++ (key, device_type) ∷ []
              else n.updater.queue;
        }
  unfolding to_be_upgraded
  asked_updater key device_type b n = elim (Bool-cases n.updater.enabled) [
    | inl on ↦ elim (Bool-cases b) [ inl e ↦ rw (on, e) refl | inr e ↦ rw (on, e) refl ]
    | inr off ↦ elim (Bool-cases b) [ inl e ↦ rw (off, e) refl | inr e ↦ rw (off, e) refl ]
  ]

  ask_upgrade-updater :
      (key device_type revision : Text) (n : Node env)
      → (ask_upgrade env key device_type revision n).updater
        ≡ queued key device_type revision n.service.latest_cache n.updater
  unfolding ask_upgrade
  ask_upgrade-updater key device_type revision n =
      rw (is_latest-holds device_type revision n.service.latest_cache) (
        asked_updater key device_type
          (holds revision (find_latest_firmware device_type n.service.latest_cache)) n)

  -- A connection and a ping put their device behind the queue for upgrades, by the Kafka key, exactly
  -- when the auto-updater is enabled and the cache does not have the device's revision as that of the
  -- latest firmware of its type, whatever the tables hold. They change nothing else of the auto-updater.
  pub apply_event-queued :
      (key end_point serial device_type revision : Text) (n : Node env)
      → ((apply_event env key end_point (connection serial device_type revision) n).updater
          ≡ queued key device_type revision n.service.latest_cache n.updater)
        × ((apply_event env key end_point (ping serial device_type revision) n).updater
            ≡ queued key device_type revision n.service.latest_cache n.updater)
  unfolding apply_event
  apply_event-queued key end_point serial device_type revision n =
      let f = record_revision env key revision device_type end_point in
      let o = compute_firmware_age env device_type revision n.service in
      let kept =
        known_age-latest_cache o f n
          (λ m. (record_revision-latest_cache key revision device_type end_point m, refl)) in
      (
        ask_upgrade-updater key device_type revision (known_age env o f n)
            ∙ ap (λ c. queued key device_type revision c (known_age env o f n).updater) kept.0
            ∙ ap (queued key device_type revision n.service.latest_cache) kept.1,
        ask_upgrade-updater key device_type revision (
              hear env serial device_type end_point revision
                (record_revision env serial revision device_type end_point n))
            ∙ ap (λ c. queued key device_type revision c n.updater)
                (record_revision-latest_cache serial revision device_type end_point n),
      )

  ask_upgrade-service :
      (key device_type revision : Text) (n : Node env)
      → (ask_upgrade env key device_type revision n).service ≡ n.service
  unfolding ask_upgrade
  ask_upgrade-service key device_type revision n =
      elim (Bool-cases (is_latest device_type revision n.service.latest_cache)) [
        | inl latest ↦ rw latest refl
        | inr older ↦ rw older refl
      ]

  -- A device whose firmware the service does not know: a connection leaves the tables as they are,
  -- while a ping records its revision.
  pub apply_event-unknown :
      (key end_point serial device_type revision : Text) (n : Node env)
      → compute_firmware_age env device_type revision n.service ≡ none
      → ((apply_event env key end_point (connection serial device_type revision) n).service
          ≡ n.service)
        × ((apply_event env key end_point (ping serial device_type revision) n).service
            ≡ (set_device_revision env serial revision device_type end_point n.service).1)
  unfolding apply_event
  apply_event-unknown key end_point serial device_type revision n unknown = (
    ask_upgrade-service key device_type revision (
          known_age env (compute_firmware_age env device_type revision n.service)
            (record_revision env key revision device_type end_point) n)
        ∙ ap
            (λ o.
              (known_age env o (record_revision env key revision device_type end_point) n).service)
            unknown,
    ask_upgrade-service key device_type revision (
        hear env serial device_type end_point revision
          (record_revision env serial revision device_type end_point n)),
  )

-- ===== src/Storage/Devices/Counts.antt =====
-- What the counters of GenerateDeviceReport count.
use mathlib.Core.List.{map-id}
use wlan_cloud_ucentralfms.Storage.Firmwares.{get_firmware_by_revision, compute_firmware_age}
use wlan_cloud_ucentralfms.Orm.Engine.{batch}
use wlan_cloud_ucentralfms.Common.{
  ℕ, ◌+◌, ◌*◌, ◌≤◌, ◌<◌, ◌≡◌, refl, ap, ◌∙◌, inl, inr, Bool, true, false, Option, none, some, List,
  [], ◌∷◌, arith, if◌then◌else◌, Bool-cases, ◌==◌, num_Eq, length, take, keep, Text, text_eq_iff,
  text_Eq, Map, lookup, lookup-insert,
}
use wlan_cloud_ucentralfms.FmsObjects.{
  Firmware, FirmwareAgeDetails, DeviceConnectionInformation, same, DeviceReport,
}
use wlan_cloud_ucentralfms.Orm.Engine.Pages.{IsPaged, visit_all, iterate-visit_all}
use wlan_cloud_ucentralfms.Service.{Env, State, word64}
use wlan_cloud_ucentralfms.Storage.Devices.{
  new_count, update_counted_map, empty_report, report_age, tallied, matching, report_device,
  generate_device_report,
}

-- The counter of a key, 0 when the map does not have the key.
abbrev pub or_zero : Option ℕ → ℕ
or_zero none = 0
or_zero (some n) = n

unfoldable pub counted : Text → Map ℕ → ℕ
counted k m = or_zero (lookup k m)

-- The number of devices with the value in a field.
abbrev pub count :
    (DeviceConnectionInformation → Text) → Text → List DeviceConnectionInformation → ℕ
count field k ds = length (keep (λ d. field d == k) ds)

or_zero-if :
    (b : Bool) (n : ℕ) (o : Option ℕ)
    → or_zero (if b then some n else o) ≡ (if b then n else or_zero o)
or_zero-if true n o = refl
or_zero-if false n o = refl

new_count-or_zero : (o : Option ℕ) → or_zero o + 1 < word64 → new_count o 1 ≡ or_zero o + 1
new_count-or_zero none h = refl
new_count-or_zero (some n) h = omega (arith, h)

add_if :
    (b : Bool) (j k : Text) (m : Map ℕ)
    → (b ≡ true → j ≡ k)
    → (if b then or_zero (lookup j m) + 1 else or_zero (lookup k m))
      ≡ (if b then 1 else 0) + or_zero (lookup k m)
add_if true j k m h =
    let same_count = ap (λ x. or_zero (lookup x m)) (h refl) in omega (arith, same_count)
add_if false j k m h = omega arith

counted-update_counted_map :
    (m : Map ℕ) (j k : Text)
    → counted j m + 1 < word64
    → counted k (update_counted_map m j 1) ≡ (if j == k then 1 else 0) + counted k m
unfolding counted update_counted_map
counted-update_counted_map m j k h =
    ap or_zero (lookup-insert j k (new_count (lookup j m) 1) m)
    ∙ or_zero-if (j == k) (new_count (lookup j m) 1) (lookup k m)
    ∙ ap (λ n. if j == k then n else or_zero (lookup k m)) (new_count-or_zero (lookup j m) h)
    ∙ add_if (j == k) j k m (text_eq_iff j k).0

counted-nil : (k : Text) → counted k [] ≡ 0
unfolding counted lookup
counted-nil k = refl

one_or_zero : (b : Bool) → (if b then 1 else 0) ≤ 1
one_or_zero b = ground arith

count-cons :
    (field : DeviceConnectionInformation → Text) (k : Text) (d : DeviceConnectionInformation)
    (ds : List DeviceConnectionInformation)
    → count field k (d ∷ ds) ≡ (if field d == k then 1 else 0) + count field k ds
count-cons field k d ds = ground arith

module _ (env : Env) (s : State env) where
  -- A map of the report in which every device adds one to the counter of its field.
  abbrev IsTally : (DeviceReport → Map ℕ) → (DeviceConnectionInformation → Text) → Type 0
  IsTally tally field =
      (d : DeviceConnectionInformation) (r : DeviceReport)
      → tally (report_device env s d r) ≡ update_counted_map (tally r) (field d) 1

  tally-visit_all :
      (tally : DeviceReport → Map ℕ) (field : DeviceConnectionInformation → Text)
      → IsTally tally field
      → (k : Text) (ds : List DeviceConnectionInformation) (r : DeviceReport)
      → ((j : Text) → counted j (tally r) + length ds < word64)
      → counted k (tally (visit_all (report_device env s) ds r))
        ≡ counted k (tally r) + count field k ds
  unfolding visit_all
  tally-visit_all tally field step k [] r h = omega arith
  tally-visit_all tally field step k (d ∷ ds) r h =
      let up : (j : Text)
          → counted j (tally (report_device env s d r))
            ≡ (if field d == j then 1 else 0) + counted j (tally r) =
        λ j.
          ap (counted j) (step d r)
          ∙ counted-update_counted_map (tally r) (field d) j (omega (arith, h (field d))) in
      let rest =
        tally-visit_all tally field step k ds (report_device env s d r)
          (λ j. omega (arith, h j, up j, one_or_zero (field d == j))) in
      omega (arith, rest, up k, count-cons field k d ds)

  report_age-keeps :
      (tally : DeviceReport → Map ℕ)
      → ((r : DeviceReport) (a b c e : Map ℕ)
          → tally (record r {
            using_latest = a;
            unknown_firmwares = b;
            total_seconds_old = c;
            matched_revisions = e;
          })
            ≡ tally r)
      → (v : Text) (o : Option FirmwareAgeDetails) (r : DeviceReport)
      → tally (report_age env v o r) ≡ tally r
  report_age-keeps tally keeps v none r = refl
  report_age-keeps tally keeps v (some a) r = elim (Bool-cases a.latest) [
    | inl latest ↦ rw latest (keeps r _ _ _ _)
    | inr old ↦ elim (Bool-cases (a.age == 0)) [
      | inl zero_age ↦ rw (old, zero_age) (keeps r _ _ _ _)
      | inr aged ↦ rw (old, aged) (keeps r _ _ _ _)
    ]
  ]

  matching-keeps :
      (tally : DeviceReport → Map ℕ)
      → ((r : DeviceReport) (a b c e : Map ℕ)
          → tally (record r {
            using_latest = a;
            unknown_firmwares = b;
            total_seconds_old = c;
            matched_revisions = e;
          })
            ≡ tally r)
      → (v : Text) (o : Option Firmware) (r : DeviceReport) → tally (matching env v o r) ≡ tally r
  matching-keeps tally keeps v none r = refl
  matching-keeps tally keeps v (some f) r = keeps r _ _ _ _

  report_device-IsTally :
      (tally : DeviceReport → Map ℕ) (field : DeviceConnectionInformation → Text)
      → ((r : DeviceReport) (a b c e : Map ℕ)
          → tally (record r {
            using_latest = a;
            unknown_firmwares = b;
            total_seconds_old = c;
            matched_revisions = e;
          })
            ≡ tally r)
      → ((d : DeviceConnectionInformation) (r : DeviceReport)
          → tally (tallied env d r) ≡ update_counted_map (tally r) (field d) 1)
      → IsTally tally field
  unfolding report_device
  report_device-IsTally tally field keeps step d r =
      report_age-keeps tally keeps d.revision (compute_firmware_age env d.device_type d.revision s)
        _
      ∙ matching-keeps tally keeps d.revision
          (get_firmware_by_revision env d.revision d.device_type s) (tallied env d r)
      ∙ step d r

  tally-report :
      (tally : DeviceReport → Map ℕ) (field : DeviceConnectionInformation → Text)
      → ((r : DeviceReport) (a b c e : Map ℕ)
          → tally (record r {
            using_latest = a;
            unknown_firmwares = b;
            total_seconds_old = c;
            matched_revisions = e;
          })
            ≡ tally r)
      → ((d : DeviceConnectionInformation) (r : DeviceReport)
          → tally (tallied env d r) ≡ update_counted_map (tally r) (field d) 1)
      → tally empty_report ≡ []
      → (ds : List DeviceConnectionInformation) → length ds < word64
      → (k : Text)
      → counted k (tally (visit_all (report_device env s) ds empty_report)) ≡ count field k ds
  tally-report tally field keeps step start ds small k =
      let none_yet : (j : Text) → counted j (tally empty_report) ≡ 0 =
        λ j. ap (counted j) start ∙ counted-nil j in
      let whole =
        tally-visit_all tally field (report_device-IsTally tally field keeps step) k ds empty_report
          (λ j. omega (arith, none_yet j, small)) in
      omega (arith, none_yet k, whole)

  -- GenerateDeviceReport on an empty report, when the table lists its rows in one order, there are more
  -- batches than they fill, and they are fewer than 2^64: it ends, and every counter of the device types, the revisions, the states, the end
  -- points and the first six characters of the serial numbers is the number of devices with it.
  pub generate_device_report-counts :
      (paged : IsPaged env.device_engine) (fuel : ℕ)
      → length (paged.listing [] s.devices) < fuel * batch
      → length (paged.listing [] s.devices) < word64
      → (r : DeviceReport) × (generate_device_report env fuel empty_report s ≡ some r)
        × ((k : Text)
            → (counted k r.device_types ≡ count (λ d. d.device_type) k (paged.listing [] s.devices))
              × (counted k r.revisions ≡ count (λ d. d.revision) k (paged.listing [] s.devices))
              × (counted k r.status ≡ count (λ d. d.status) k (paged.listing [] s.devices))
              × (counted k r.end_points ≡ count (λ d. d.end_point) k (paged.listing [] s.devices))
              × (counted k r.oui
                  ≡ count (λ d. take 6 d.serial_number) k (paged.listing [] s.devices)))
  unfolding generate_device_report
  generate_device_report-counts paged fuel enough small =
      let ds = paged.listing [] s.devices in
      let whole =
        iterate-visit_all same env.device_engine paged (report_device env s) [] s.devices fuel
          empty_report enough in
      (
        visit_all (report_device env s) ds empty_report,
        whole ∙ ap (λ l. some (visit_all (report_device env s) l empty_report)) (map-id ds),
        λ k. (
          tally-report (λ r. r.device_types) (λ d. d.device_type) (λ r a b c e. refl) (λ d r. refl)
              refl ds small k,
          tally-report (λ r. r.revisions) (λ d. d.revision) (λ r a b c e. refl) (λ d r. refl) refl
              ds small k,
          tally-report (λ r. r.status) (λ d. d.status) (λ r a b c e. refl) (λ d r. refl) refl ds
              small k,
          tally-report (λ r. r.end_points) (λ d. d.end_point) (λ r a b c e. refl) (λ d r. refl) refl
              ds small k,
          tally-report (λ r. r.oui) (λ d. take 6 d.serial_number) (λ r a b c e. refl) (λ d r. refl)
              refl ds small k,
        ),
      )

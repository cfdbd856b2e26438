-- ===== src/Dashboard.antt =====
-- src/Dashboard.{h,cpp}: the report on the devices, kept for two minutes. One thread at a time asks for
-- it, so that none finds another generating.
use wlan_cloud_ucentralfms.Common.{
  ℕ, ◌+◌, ◌≤◌, ◌<◌, ◌≡◌, sym, ap, ◌∙◌, Bool, true, false, not, ◌||◌, Option, none, some, arith, ltb,
  num_eq, if◌then◌else◌,
}
use mathlib.Core.Option.{some-injective, none-ne-some}
use wlan_cloud_ucentralfms.FmsObjects.{DeviceReport}
use wlan_cloud_ucentralfms.Service.{Env, State, word64, sub64}
use wlan_cloud_ucentralfms.Storage.Devices.{empty_report, generate_device_report}

pub record Dashboard : Type 0 where
  pub report : DeviceReport
  pub valid : Bool
  pub last_run : ℕ

module _ (env : Env) where
  -- Generate with the report that GenerateDeviceReport made; `none` when its fuel ran out.
  abbrev pub generated :
      Option DeviceReport → ℕ → Dashboard → Option (DeviceReport × Bool × Dashboard)
  generated none now d = none
  generated (some r) now d =
      let r' : DeviceReport = record r { snapshot = now } in
      some (r', true, record d { report = r'; valid = true; last_run = now })

  unfoldable pub is_stale : ℕ → Dashboard → Bool
  is_stale now d = not d.valid || (num_eq d.last_run 0 || ltb 120 (sub64 now d.last_run))

  -- Get: the report for the caller, the result, and the dashboard.
  unfoldable pub get_dashboard :
      ℕ → State env → Dashboard → Option (DeviceReport × Bool × Dashboard)
  unfolding is_stale
  get_dashboard fuel s d =
      if is_stale s.now d
      then generated (generate_device_report env fuel empty_report s) s.now d
      else some (d.report, d.valid, d)

  generated-kept :
      (o : Option DeviceReport) (now later : ℕ) (d d' : Dashboard) (r : DeviceReport) (b : Bool)
      → generated o now d ≡ some (r, b, d')
      → 0 < now
      → now ≤ later
      → later ≤ now + 120
      → later < word64
      → (is_stale later d' ≡ false) × (d'.report ≡ r) × (d'.valid ≡ true)
  unfolding is_stale
  generated-kept none now later d d' r b e started past recent range = absurd (none-ne-some _ e)
  generated-kept (some made) now later d d' r b e started past recent range =
      let same_result = some-injective _ (r, b, d') e in
      let kept = ap (λ x. x.2) same_result in
      (
        ap (is_stale later) (sym kept) ∙ ground arith,
        ap (λ (x : Dashboard). x.report) (sym kept) ∙ ap (λ x. x.0) same_result,
        ap (λ (x : Dashboard). x.valid) (sym kept),
      )

  -- A report that is generated is what every Get of the next 120 seconds gives, whatever happens to the
  -- devices meanwhile: with a clock past 0 and below 2^64, and the dashboard stale at the first Get.
  pub get_dashboard-again :
      (fuel fuel' : ℕ) (s s' : State env) (d d' : Dashboard) (r : DeviceReport) (b : Bool)
      → is_stale s.now d ≡ true
      → get_dashboard fuel s d ≡ some (r, b, d')
      → 0 < s.now
      → s.now ≤ s'.now
      → s'.now ≤ s.now + 120
      → s'.now < word64
      → get_dashboard fuel' s' d' ≡ some (r, true, d')
  unfolding get_dashboard
  get_dashboard-again fuel fuel' s s' d d' r b stale first started past recent range =
      let made = generate_device_report env fuel empty_report s in
      let kept =
        generated-kept made s.now s'.now d d' r b (rw (get_dashboard, stale) at first) started past
          recent range in
      rw (kept.0) (ap (λ x. some (x, d'.valid, d')) kept.1 ∙ ap (λ x. some (r, x, d')) kept.2)

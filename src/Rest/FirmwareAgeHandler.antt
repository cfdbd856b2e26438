-- ===== src/Rest/FirmwareAgeHandler.antt =====
-- src/RESTAPI/RESTAPI_firmwareAgeHandler.cpp: how old the firmware of devices is.
use mathlib.Core.Path.{subst}
use wlan_cloud_ucentralfms.Common.{
  ◌≡◌, refl, ap, ◌∙◌, inl, inr, ◌||◌, Option, none, some, List, [], ◌∷◌, map, if◌then◌else◌, In,
  Text, text_eq_refl, is_empty, Map,
}
use wlan_cloud_ucentralfms.FmsObjects.{FirmwareAgeDetails}
use wlan_cloud_ucentralfms.Orm.Where.{escape}
use wlan_cloud_ucentralfms.Service.{Env, State}
use wlan_cloud_ucentralfms.Storage.{trim_revision}
use wlan_cloud_ucentralfms.Storage.Firmwares.{compute_firmware_age}
use wlan_cloud_ucentralfms.DeviceCache.{DeviceCacheEntry, remember, recall, recall-remember}
use wlan_cloud_ucentralfms.Rest.{
  Response, both_device_type_revision, not_found, bad_request, age_object, ages_object,
}

module _ (env : Env) (s : State env) where
  abbrev pub age_known : Option DeviceCacheEntry → Option FirmwareAgeDetails
  age_known none = none
  age_known (some e) = compute_firmware_age env e.device_type e.revision s

  -- One object for each selected serial number, with the age when it is known.
  pub ages : Map DeviceCacheEntry → List Text → List (Text × Option FirmwareAgeDetails)
  ages heard [] = []
  ages heard (serial ∷ selected) = (serial, age_known (recall serial heard)) ∷ ages heard selected

  abbrev pub age_answer : Option FirmwareAgeDetails → Response
  age_answer none = not_found
  age_answer (some a) = age_object a

  -- DoGet, with the selected serial numbers, and the parameters of the device type and the revision.
  unfoldable pub get_ages : Map DeviceCacheEntry → List Text → Text → Text → Response
  unfolding ages
  get_ages heard (serial ∷ selected) device_type revision =
      ages_object (ages heard (serial ∷ selected))
  get_ages heard [] device_type revision =
      let d = escape device_type in
      let r = escape revision in
      if is_empty d || is_empty r
      then bad_request both_device_type_revision
      else age_answer (compute_firmware_age env d (trim_revision r) s)

  ages-In :
      (heard : Map DeviceCacheEntry) (serial : Text) (selected : List Text)
      → In serial selected
      → In (serial, age_known (recall serial heard)) (ages heard selected)
  unfolding ages
  ages-In heard serial [] h = absurd h
  ages-In heard serial (t ∷ selected) (inl e) = inl (ap (λ x. (x, age_known (recall x heard))) e)
  ages-In heard serial (t ∷ selected) (inr h) = inr (ages-In heard serial selected h)

  ages-serials :
      (heard : Map DeviceCacheEntry) (selected : List Text)
      → map (λ x. x.0) (ages heard selected) ≡ selected
  unfolding ages
  ages-serials heard [] = refl
  ages-serials heard (t ∷ selected) = ap (λ l. t ∷ l) (ages-serials heard selected)

  -- A request that selects serial numbers: the answer names each of them once, in their order, and a
  -- device among them that was just heard of has the age that ComputeFirmwareAge gives for the device
  -- type and the revision that it was heard with.
  pub get_ages-remember :
      (serial device_type host revision first : Text) (heard : Map DeviceCacheEntry)
      (selected : List Text)
      → In serial (first ∷ selected)
      → (l : List (Text × Option FirmwareAgeDetails)) × (get_ages
            (remember serial device_type host revision heard)
            (first ∷ selected)
            []
            []
          ≡ ages_object l)
        × (map (λ x. x.0) l ≡ first ∷ selected)
        × In (serial, compute_firmware_age env device_type revision s) l
  unfolding get_ages
  get_ages-remember serial device_type host revision first heard selected h =
      let now_heard = remember serial device_type host revision heard in
      let e : DeviceCacheEntry = record {
        device_type = device_type;
        host = host;
        revision = revision;
      } in
      let known : age_known (recall serial now_heard)
          ≡ compute_firmware_age env device_type revision s =
        ap age_known (
          recall-remember serial device_type host revision serial heard
          ∙ ap (λ b. if b then some e else recall serial heard) (text_eq_refl serial)) in
      (
        ages now_heard (first ∷ selected),
        refl,
        ages-serials now_heard (first ∷ selected),
        subst (λ a. In (serial, a) (ages now_heard (first ∷ selected))) known
            (ages-In now_heard serial (first ∷ selected) h),
      )

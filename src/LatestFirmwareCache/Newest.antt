-- ===== src/LatestFirmwareCache/Newest.antt =====
-- Which announcement of a history FindLatestFirmware and FindLatestRCOnlyFirmware return.
use wlan_cloud_ucentralfms.Common.{
  Text, true, false, text_eq, text_eq_iff, List, [], ◌∷◌, ◌++◌, ap, Option, none, some, ◌≡◌, ◌≢◌,
  ◌≤◌, ◌<◌, All, arith, lookup, lookup-insert, Bool-cases, inl, inr, text_Eq, Map,
}
use wlan_cloud_ucentralfms.Poco.{Poco}
use wlan_cloud_ucentralfms.LatestFirmwareCache.{
  LatestFirmwareCacheEntry, offer, add_to_cache, replaces, find_latest_firmware,
  find_latest_rc_only_firmware, LatestFirmwareCache,
}
use wlan_cloud_ucentralfms.LatestFirmwareCache.History.{
  Announcement, after, announce, rc_only, rc_cache-after,
}

-- `o` is what a history (newest call first) says of a device type: no announcement names the type,
-- or the history splits at one of the type that no earlier one passes and every later one is below.
abbrev pub IsNewest : Text → List Announcement → Option LatestFirmwareCacheEntry → Type 0
IsNewest d h none = All (λ a. a.device_type ≢ d) h
IsNewest d h (some e) =
    (later : List Announcement) × (earlier : List Announcement) × (h
      ≡ later ++ record { device_type = d; entry = e } ∷ earlier)
    × All (λ a. a.device_type ≡ d → a.entry.time_stamp < e.time_stamp) later
    × All (λ a. a.device_type ≡ d → a.entry.time_stamp ≤ e.time_stamp) earlier

All-map {ℓ κ} :
    {A : Type ℓ} {P Q : A → Type κ} → ((a : A) → P a → Q a) → (xs : List A) → All P xs → All Q xs
All-map f [] h = h
All-map f (x ∷ xs) h = (f x h.0, All-map f xs h.1)

All-append {ℓ κ} :
    {A : Type ℓ} (P : A → Type κ) (xs : List A) (y : A) (ys : List A)
    → All P xs
    → P y
    → All P ys
    → All P (xs ++ y ∷ ys)
All-append P [] y ys hx hy hys = (hy, hys)
All-append P (x ∷ xs) y ys hx hy hys = (hx.0, All-append P xs y ys hx.1 hy hys)

-- Every announcement of the type is at most as new as the one that was found.
bound :
    (d : Text) (h : List Announcement) (e : LatestFirmwareCacheEntry)
    → IsNewest d h (some e)
    → All (λ a. a.device_type ≡ d → a.entry.time_stamp ≤ e.time_stamp) h
bound d h e (later, earlier, split, below, upto) = rw split (
    All-append _ later _ earlier (All-map (λ a f p. omega (arith, f p)) later below)
      (λ _. omega arith) upto)

-- An announcement of another type.
skip :
    (d : Text) (a : Announcement) (h : List Announcement) (o : Option LatestFirmwareCacheEntry)
    → a.device_type ≢ d
    → IsNewest d h o
    → IsNewest d (a ∷ h) o
skip d a h none ne n = (ne, n)
skip d a h (some e) ne (later, earlier, split, below, upto) =
    (a ∷ later, earlier, ap (◌∷◌ a) split, ((λ p. absurd (ne p)), below), upto)

-- An announcement of the type replaces what is not newer.
take_over :
    (d : Text) (a : Announcement) (h : List Announcement) (o : Option LatestFirmwareCacheEntry)
    → a.device_type ≡ d
    → replaces a.entry.time_stamp o ≡ true
    → IsNewest d h o
    → IsNewest d (a ∷ h) (some a.entry)
unfolding replaces
take_over d a h none p r n = ([], h, ground arith, tt, All-map (λ b ne q. absurd (ne q)) h n)
take_over d a h (some e) p r n =
    ([], h, ground arith, tt, All-map (λ b f q. let le = f q in ground arith) h (bound d h e n))

yield_to :
    (d : Text) (a : Announcement) (h : List Announcement) (o : Option LatestFirmwareCacheEntry)
    → replaces a.entry.time_stamp o ≡ false
    → IsNewest d h o
    → IsNewest d (a ∷ h) o
unfolding replaces
yield_to d a h none r n = cc
yield_to d a h (some e) r (later, earlier, split, below, upto) =
    (a ∷ later, earlier, ap (◌∷◌ a) split, ((λ _. ground arith), below), upto)

offer_cases :
    (d : Text) (a : Announcement) (h : List Announcement) (m : Map LatestFirmwareCacheEntry)
    → IsNewest d h (lookup d m)
    → IsNewest d (a ∷ h) (lookup d (offer a.device_type a.entry m))
unfolding offer
offer_cases d a h m n = elim (Bool-cases (text_eq a.device_type d)) [
  | inr other ↦ elim (Bool-cases (replaces a.entry.time_stamp (lookup a.device_type m))) [
    | inl t ↦
        rw (t, lookup-insert, other)
          (skip d a h (lookup d m) (ground (arith, text_eq_iff a.device_type d)) n)
    | inr f ↦ rw f (skip d a h (lookup d m) (ground (arith, text_eq_iff a.device_type d)) n)
  ]
  | inl same ↦
      let e : a.device_type ≡ d = (text_eq_iff a.device_type d).0 same in
      elim (Bool-cases (replaces a.entry.time_stamp (lookup a.device_type m))) [
        | inl t ↦ rw (t, lookup-insert, same) (take_over d a h (lookup d m) e (ground arith) n)
        | inr f ↦ rw f (yield_to d a h (lookup d m) (ground arith) n)
      ]
]

cache-announce :
    (poco : Poco) (a : Announcement) (c : LatestFirmwareCache)
    → (announce poco a c).cache ≡ offer a.device_type a.entry c.cache
unfolding announce add_to_cache
cache-announce poco a c = ground arith

module _ (poco : Poco) where
  -- After any history of AddToCache calls FindLatestFirmware finds the announcement of the device
  -- type with the greatest time stamp, the last of them where several share it, and nothing exactly
  -- when no announcement names the type.
  pub find_latest_firmware-after :
      (d : Text) (h : List Announcement) → IsNewest d h (find_latest_firmware d (after poco h))
  unfolding find_latest_firmware after lookup
  find_latest_firmware-after d [] = tt
  find_latest_firmware-after d (a ∷ h) =
      rw (cache-announce poco a (after poco h))
        (offer_cases d a h (after poco h).cache (find_latest_firmware-after d h))

  -- After any history FindLatestRCOnlyFirmware finds the newest among the announcements whose
  -- revision is a release candidate, under the same rule for ties, and nothing exactly when no such
  -- announcement names the type.
  pub find_latest_rc_only_firmware-after :
      (d : Text) (h : List Announcement)
      → IsNewest d (rc_only poco h) (find_latest_rc_only_firmware d (after poco h))
  unfolding find_latest_rc_only_firmware
  find_latest_rc_only_firmware-after d h =
      rw (rc_cache-after poco h)
        (unfold find_latest_firmware in find_latest_firmware-after d (rc_only poco h))

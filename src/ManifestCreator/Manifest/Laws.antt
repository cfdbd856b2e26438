-- ===== src/ManifestCreator/Manifest/Laws.antt =====
-- Which entries ComputeManifest makes valid, and what a refresh does when the bucket cannot be listed.
use mathlib.Core.Path.{subst}
use mathlib.Core.Bool.{false≢true}
use wlan_cloud_ucentralfms.Common.{
  ℕ, ◌<◌, ◌≡◌, refl, sym, ◌∙◌, ◌⊎◌, inl, inr, Bool, true, false, Option, none, some, [], ◌∷◌, arith,
  ltb, if◌then◌else◌, Bool-cases, ◌>>=◌, In, Text, codes, text_eq_iff,
}
use wlan_cloud_ucentralfms.Json.{Json}
use wlan_cloud_ucentralfms.Service.{sub64}
use wlan_cloud_ucentralfms.ManifestCreator.{S3BucketEntry, S3BucketContent, S3Client}
use wlan_cloud_ucentralfms.ManifestCreator.Bucket.{
  has_manifest, get_text, get_number, read_bucket, finished, failed,
}
use wlan_cloud_ucentralfms.ManifestCreator.Bucket.Valid.{
  NoneValid, LeavesNoneValid, read_bucket-NoneValid,
}
use wlan_cloud_ucentralfms.ManifestCreator.Manifest.{
  when_read, image_name, check_image, accept_manifest, weigh_manifest, compute_entry,
  compute_entries, compute_manifest,
}

-- A manifest is young enough, and its image is named after the release.
abbrev pub IsAccepted : ℕ → Text → S3BucketEntry → Type 0
IsAccepted limit name e = (limit < e.timestamp) × (e.image ≡ image_name name)

abbrev SoundWhenValid : ℕ → Text → S3BucketEntry → Type 0
SoundWhenValid limit name e = e.valid ≡ true → IsAccepted limit name e

module _ (limit : ℕ) (name : Text) where
  invalid_sound : (e : S3BucketEntry) → e.valid ≡ false → SoundWhenValid limit name e
  invalid_sound e old h = absurd (false≢true (sym old ∙ h))

  if_sound :
      (b : Bool) (e d : S3BucketEntry)
      → SoundWhenValid limit name e
      → SoundWhenValid limit name d
      → SoundWhenValid limit name (if b then e else d)
  if_sound true e d h k = h
  if_sound false e d h k = k

  when_read_sound :
      {A : Type 0} (o : Option A) (e : S3BucketEntry) (k : A → S3BucketEntry)
      → SoundWhenValid limit name e
      → ((a : A) → SoundWhenValid limit name (k a))
      → SoundWhenValid limit name (when_read o e k)
  when_read_sound none e k h f = h
  when_read_sound (some a) e k h f = f a

  check_image_sound :
      (e : S3BucketEntry) → limit < e.timestamp → SoundWhenValid limit name (check_image name e)
  check_image_sound e young h = (young, sym ((text_eq_iff (image_name name) e.image).0 h))

  module _ {Var Object : Type 0} (J : Json Var Object) where
    accept_manifest_sound :
        (o : Object) (e : S3BucketEntry)
        → e.valid ≡ false
        → limit < e.timestamp
        → SoundWhenValid limit name (accept_manifest J name o e)
    accept_manifest_sound o e old young =
        when_read_sound (get_text J (codes "compatible") o) e _ (invalid_sound e old) (λ c.
          when_read_sound (get_text J (codes "revision") o) _ _
            (λ h. absurd (false≢true (sym old ∙ h)))
            (λ r.
              when_read_sound (get_text J (codes "image") o) _ _
                (λ h. absurd (false≢true (sym old ∙ h)))
                (λ i.
                  check_image_sound (record e { compatible = c; revision = r; image = i }) young)))

    weigh_manifest_sound :
        (o : Object) (e : S3BucketEntry)
        → e.valid ≡ false
        → SoundWhenValid limit name (weigh_manifest J name limit o e)
    weigh_manifest_sound o e old = elim (Bool-cases (ltb limit e.timestamp)) [
      | inl young ↦ rw young (accept_manifest_sound o e old (ground arith))
      | inr late ↦ rw late (invalid_sound (record e { valid = false }) refl)
    ]

    compute_entry_sound :
        (e : S3BucketEntry)
        → e.valid ≡ false
        → SoundWhenValid limit name (compute_entry J name limit e)
    unfolding compute_entry
    compute_entry_sound e old =
        when_read_sound (J.parse e.s3_content_manifest >>= J.to_object) e _ (invalid_sound e old)
          (λ o.
            if_sound (has_manifest J o) _ _
              (when_read_sound (get_number J (codes "timestamp") o) e _ (invalid_sound e old)
                (λ t. weigh_manifest_sound o (record e { timestamp = t }) old))
              (invalid_sound (record e { valid = false }) refl))

module _ {Var Object : Type 0} (J : Json Var Object) where
  compute_entries_sound :
      (limit : ℕ) (b : S3BucketContent) (p : Text × S3BucketEntry)
      → NoneValid b
      → In p (compute_entries J limit b)
      → p.1.valid ≡ true
      → IsAccepted limit p.0 p.1
  unfolding compute_entries
  compute_entries_sound limit [] p old at = absurd at
  compute_entries_sound limit ((name, e) ∷ b) p old (inl here) =
      subst (λ q. q.1.valid ≡ true → IsAccepted limit q.0 q.1) (sym here)
        (compute_entry_sound limit name J e old.0)
  compute_entries_sound limit ((name, e) ∷ b) p old (inr there) =
      compute_entries_sound limit b p old.1 there

  -- In the bucket that ReadBucket leaves, whether it returns true or false, ComputeManifest marks as
  -- valid only entries with a manifest whose time is after Now() - MaxAge_ (on 64 bits), and with an
  -- image whose name is that of the entry with "-upgrade.bin" behind it.
  pub compute_manifest-IsAccepted :
      (client : S3Client) (uri_base : Text) (running : ℕ → Bool) (fuel now max_age : ℕ)
      (b : S3BucketContent) (p : Text × S3BucketEntry)
      → ((read_bucket J client uri_base running fuel ≡ finished b)
          ⊎ (read_bucket J client uri_base running fuel ≡ failed b))
      → In p (compute_manifest J now max_age b)
      → p.1.valid ≡ true
      → IsAccepted (sub64 now max_age) p.0 p.1
  unfolding compute_manifest
  compute_manifest-IsAccepted client uri_base running fuel now max_age b p (inl e) =
      compute_entries_sound (sub64 now max_age) b p
        (subst LeavesNoneValid e (read_bucket-NoneValid J client uri_base running fuel))
  compute_manifest-IsAccepted client uri_base running fuel now max_age b p (inr e) =
      compute_entries_sound (sub64 now max_age) b p
        (subst LeavesNoneValid e (read_bucket-NoneValid J client uri_base running fuel))

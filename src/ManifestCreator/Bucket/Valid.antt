-- ===== src/ManifestCreator/Bucket/Valid.antt =====
-- ReadBucket marks no entry as valid.
use mathlib.Core.Path.{subst}
use wlan_cloud_ucentralfms.Common.{
  ℕ, zero, suc, ◌+◌, ◌≡◌, refl, ◌⊎◌, inl, inr, Bool, false, Option, none, some, List, [], ◌∷◌,
  Bool-cases, Option-cases, num_Eq, ◌==◌, length, All, Text, codes, text_eq, text_Eq, text_lt,
  lookup, insert,
}
use wlan_cloud_ucentralfms.Json.{Json}
use wlan_cloud_ucentralfms.ManifestCreator.{S3BucketEntry, S3BucketContent, S3Object, S3Client}
use wlan_cloud_ucentralfms.ManifestCreator.Bucket.{
  ReadOutcome, or_new, put_manifest, put_image, release_of_image, has_manifest, manifest_fields,
  put_parsed, read_manifest, read_object, read_page, read_pages, read_bucket, finished, failed,
  thrown, out_of_fuel,
}

-- No entry of the bucket is marked valid.
abbrev pub NoneValid : S3BucketContent → Type 0
NoneValid = All (λ p. p.1.valid ≡ false)

-- What ReadBucket leaves, when it leaves a bucket.
abbrev pub LeavesNoneValid : ReadOutcome → Type 0
LeavesNoneValid (finished b) = NoneValid b
LeavesNoneValid (failed b) = NoneValid b
LeavesNoneValid thrown = Unit
LeavesNoneValid out_of_fuel = Unit

abbrev StepNoneValid : Option S3BucketContent → Type 0
StepNoneValid none = Unit
StepNoneValid (some b) = NoneValid b

insert-NoneValid :
    (k : Text) (e : S3BucketEntry) (b : S3BucketContent)
    → e.valid ≡ false
    → NoneValid b
    → NoneValid (insert k e b)
unfolding insert
insert-NoneValid k e [] h t = (h, tt)
insert-NoneValid k e ((j, d) ∷ b) h t = elim (Bool-cases (text_eq j k)) [
  | inl same ↦ rw same (h, t.1)
  | inr other ↦ rw other (elim (Bool-cases (text_lt k j)) [
    | inl before ↦ rw before (h, t)
    | inr after ↦ rw after (t.0, insert-NoneValid k e b h t.1)
  ])
]

or_new-lookup : (k : Text) (b : S3BucketContent) → NoneValid b → (or_new (lookup k b)).valid ≡ false
unfolding lookup
or_new-lookup k [] t = refl
or_new-lookup k ((j, e) ∷ b) t = elim (Bool-cases (text_eq j k)) [
  | inl same ↦ rw same t.0
  | inr other ↦ rw other (or_new-lookup k b t.1)
]

module _ {Var Object : Type 0} (J : Json Var Object) (client : S3Client) (uri_base : Text) where
  put_parsed-NoneValid :
      (release content : Text) (o : Object) (b : S3BucketContent)
      → NoneValid b
      → StepNoneValid (put_parsed J release content o b)
  unfolding put_manifest
  put_parsed-NoneValid release content o b t = elim (Bool-cases (has_manifest J o)) [
    | inl all ↦ rw all (elim (Option-cases (manifest_fields J o)) [
      | inl e ↦ rw e tt
      | inr (m, e) ↦ rw e (insert-NoneValid release _ b (or_new-lookup release b t) t)
    ])
    | inr some_missing ↦ rw some_missing t
  ]

  read_manifest-NoneValid :
      (release : Text) (content : Option Text) (b : S3BucketContent)
      → NoneValid b
      → StepNoneValid (read_manifest J release content b)
  unfolding read_manifest
  read_manifest-NoneValid release none b t = t
  read_manifest-NoneValid release (some content) b t = elim (Option-cases (J.parse content)) [
    | inl e ↦ rw (e, read_manifest) tt
    | inr (v, e) ↦ elim (Option-cases (J.to_object v)) [
      | inl f ↦ rw (e, f, read_manifest) tt
      | inr (o, f) ↦ rw (e, f, read_manifest) (put_parsed-NoneValid release content o b t)
    ]
  ]

  read_object-NoneValid :
      (x : S3Object) (b : S3BucketContent)
      → NoneValid b
      → StepNoneValid (read_object J client uri_base x b)
  unfolding read_object put_image
  read_object-NoneValid x b t = elim (Bool-cases (x.extension == codes "json")) [
    | inl json ↦
        rw (json, read_object)
          (read_manifest-NoneValid x.base_name (client.get_object x.file_name) b t)
    | inr other ↦ elim (Bool-cases (x.extension == codes "bin")) [
      | inl bin ↦
          rw (other, bin, read_object)
            (insert-NoneValid (release_of_image x.base_name) _ b
              (or_new-lookup (release_of_image x.base_name) b t) t)
      | inr neither ↦ rw (other, neither, read_object) t
    ]
  ]

  module _ (running : ℕ → Bool) where
    read_page-NoneValid :
        (count : ℕ) (xs : List S3Object) (b : S3BucketContent)
        → NoneValid b
        → LeavesNoneValid (read_page J client uri_base running count xs b)
    unfolding read_page
    read_page-NoneValid count [] b t = t
    read_page-NoneValid count (x ∷ xs) b t = elim (Bool-cases (running count)) [
      | inr off ↦ rw off t
      | inl on ↦ elim (Option-cases (read_object J client uri_base x b)) [
        | inl e ↦ rw (on, e) tt
        | inr (c, e) ↦
            rw (on, e)
              (read_page-NoneValid (suc count) xs c
                (subst StepNoneValid e (read_object-NoneValid x b t)))
      ]
    ]

    page-cases :
        (o : ReadOutcome)
        → ((b : S3BucketContent) × (o ≡ finished b))
          ⊎ (((b : S3BucketContent) × (o ≡ failed b)) ⊎ ((o ≡ thrown) ⊎ (o ≡ out_of_fuel)))
    page-cases (finished b) = inl (b, refl)
    page-cases (failed b) = inr (inl (b, refl))
    page-cases thrown = inr (inr (inl refl))
    page-cases out_of_fuel = inr (inr (inr refl))

    read_pages-NoneValid :
        (fuel count : ℕ) (token : Option Text) (b : S3BucketContent)
        → NoneValid b
        → LeavesNoneValid (read_pages J client uri_base running fuel count token b)
    unfolding read_pages
    read_pages-NoneValid zero count token b t = tt
    read_pages-NoneValid (suc fuel) count token b t =
        elim (Option-cases (client.list_objects token)) [
          | inl e ↦ rw (e, read_pages) t
          | inr (page, e) ↦
              let left = read_page-NoneValid count page.contents b t in
              elim (page-cases (read_page J client uri_base running count page.contents b)) [
                | inl (c, f) ↦ elim (Bool-cases page.is_truncated) [
                  | inl more ↦
                      rw (e, f, more, read_pages)
                        (read_pages-NoneValid fuel (count + length page.contents)
                          (some page.next_token) c (subst LeavesNoneValid f left))
                  | inr last ↦ rw (e, f, last, read_pages) (subst LeavesNoneValid f left)
                ]
                | inr (inl (c, f)) ↦ rw (e, f, read_pages) (subst LeavesNoneValid f left)
                | inr (inr (inl f)) ↦ rw (e, f, read_pages) tt
                | inr (inr (inr f)) ↦ rw (e, f, read_pages) tt
              ]
        ]

    pub read_bucket-NoneValid :
        (fuel : ℕ) → LeavesNoneValid (read_bucket J client uri_base running fuel)
    unfolding read_bucket
    read_bucket-NoneValid fuel = read_pages-NoneValid fuel 0 none [] tt

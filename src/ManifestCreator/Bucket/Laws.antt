-- ===== src/ManifestCreator/Bucket/Laws.antt =====
-- When ReadBucket ends, and which objects of the bucket end it.
use mathlib.Core.Path.{subst}
use wlan_cloud_ucentralfms.Common.{
  ℕ, zero, suc, ◌+◌, ◌≤◌, ◌≡◌, refl, sym, ap, ◌∙◌, ◌≢◌, ◌⊎◌, inl, inr, Bool, true, Option, none,
  some, List, [], ◌∷◌, arith, if_true, Bool-cases, Option-cases, num_Eq, ◌==◌, length, In, Text,
  codes, text_eq_iff, text_Eq,
}
use wlan_cloud_ucentralfms.Json.{Json}
use wlan_cloud_ucentralfms.ManifestCreator.{S3BucketContent, S3Object, S3Page, S3Client}
use wlan_cloud_ucentralfms.ManifestCreator.Bucket.{
  ReadOutcome, read_manifest, read_object, read_page, read_pages, read_bucket, finished, failed,
  thrown, out_of_fuel,
}

-- From the token, at most `n` pages follow each other.
abbrev pub Ends : S3Client → ℕ → Option Text → Type 0
Ends client zero token = ⊥
Ends client (suc n) token =
    (page : S3Page)
    → client.list_objects token ≡ some page
    → page.is_truncated ≡ true
    → Ends client n (some page.next_token)

abbrev pub RunsOut : ReadOutcome → Type 0
RunsOut out_of_fuel = Unit
RunsOut (finished b) = ⊥
RunsOut (failed b) = ⊥
RunsOut thrown = ⊥

module _ {Var Object : Type 0} (J : Json Var Object) (client : S3Client) (uri_base : Text)
    (running : ℕ → Bool) where
  abbrev page_outcome : ℕ → List S3Object → S3BucketContent → ReadOutcome
  page_outcome = read_page J client uri_base running

  read_page-ends :
      (count : ℕ) (xs : List S3Object) (b : S3BucketContent) → ¬ RunsOut (page_outcome count xs b)
  unfolding read_page
  read_page-ends count [] b h = h
  read_page-ends count (x ∷ xs) b h = elim (Bool-cases (running count)) [
    | inl on ↦ elim (Option-cases (read_object J client uri_base x b)) [
      | inl bad ↦ rw (on, bad, RunsOut) at h
      | inr good ↦ read_page-ends (suc count) xs good.0 (rw (on, good.1) at h)
    ]
    | inr off ↦ rw (off, RunsOut) at h
  ]

  page_end-cases :
      (o : ReadOutcome)
      → ¬ RunsOut o
      → ((b : S3BucketContent) × (o ≡ finished b))
        ⊎ (((b : S3BucketContent) × (o ≡ failed b)) ⊎ (o ≡ thrown))
  page_end-cases (finished b) h = inl (b, refl)
  page_end-cases (failed b) h = inr (inl (b, refl))
  page_end-cases thrown h = inr (inr refl)
  page_end-cases out_of_fuel h = absurd (h tt)

  -- As many rounds as the listing has pages are enough.
  read_pages-enough_fuel :
      (n fuel count : ℕ) (token : Option Text) (b : S3BucketContent)
      → Ends client n token
      → n ≤ fuel
      → ¬ RunsOut (read_pages J client uri_base running fuel count token b)
  unfolding read_pages
  read_pages-enough_fuel zero fuel count token b e le = absurd e
  read_pages-enough_fuel (suc n) zero count token b e le = absurd (omega arith)
  read_pages-enough_fuel (suc n) (suc fuel) count token b e le =
      elim (Option-cases (client.list_objects token)) [
        | inl stop ↦ rw (stop, read_pages, RunsOut) (λ h. h)
        | inr (page, listed) ↦
            rw (listed, read_pages)
              (elim (page_end-cases (page_outcome count page.contents b)
                (read_page-ends count page.contents b)) [
                  | inl (c, done) ↦
                      rw (done, RunsOut)
                        (elim (Bool-cases page.is_truncated) [
                          | inl more ↦ rw more (
                              read_pages-enough_fuel n fuel (count + length page.contents)
                                (some page.next_token) c (e page listed more) (omega arith))
                          | inr last ↦ rw (last, RunsOut) (λ h. h)
                        ])
                  | inr (inl (c, stop)) ↦ rw (stop, RunsOut) (λ h. h)
                  | inr (inr stop) ↦ rw (stop, RunsOut) (λ h. h)
                ])
      ]

  -- An object that cannot be read ends ReadBucket by an exception, as long as it is not stopped.
  pub read_page-thrown :
      (count : ℕ) (x : S3Object) (xs : List S3Object) (b : S3BucketContent)
      → In x xs
      → ((c : S3BucketContent) → read_object J client uri_base x c ≡ none)
      → ((k : ℕ) → running k ≡ true)
      → page_outcome count xs b ≡ thrown
  unfolding read_page
  read_page-thrown count x [] b at bad on = absurd at
  read_page-thrown count x (y ∷ xs) b at bad on = rw (on count) (elim at [
    | inl here ↦ rw (subst (λ z. read_object J client uri_base z b ≡ none) here (bad b)) refl
    | inr later ↦ elim (Option-cases (read_object J client uri_base y b)) [
      | inl stop ↦ rw stop refl
      | inr (c, good) ↦ rw good (read_page-thrown (suc count) x xs c later bad on)
    ]
  ])

  read_object-malformed :
      (x : S3Object) (content : Text) (c : S3BucketContent)
      → x.extension ≡ codes "json"
      → client.get_object x.file_name ≡ some content
      → J.parse content ≡ none
      → read_object J client uri_base x c ≡ none
  unfolding read_object read_manifest
  read_object-malformed x content c json got bad =
      if_true (x.extension == codes "json") _ _ ((text_eq_iff x.extension (codes "json")).1 json)
      ∙ (ap (λ o. read_manifest J x.base_name o c) got ∙ rw (bad, read_manifest) refl)

  -- A manifest on the first page that the JSON parser throws on ends ReadBucket by its exception.
  pub read_bucket-malformed :
      (fuel : ℕ) (page : S3Page) (x : S3Object) (content : Text)
      → client.list_objects none ≡ some page
      → In x page.contents
      → x.extension ≡ codes "json"
      → client.get_object x.file_name ≡ some content
      → J.parse content ≡ none
      → ((k : ℕ) → running k ≡ true)
      → read_bucket J client uri_base running (suc fuel) ≡ thrown
  unfolding read_bucket read_pages
  read_bucket-malformed fuel page x content listed at json got bad on =
      let stops =
        read_page-thrown 0 x page.contents [] at
          (λ c. read_object-malformed x content c json got bad) on in
      rw (listed, stops, read_pages) refl

  -- ReadBucket comes to an end when the listing does: for a bucket of at most `n` pages, `n` rounds of
  -- its loop are enough, whatever the objects are and whenever it is stopped.
  pub read_bucket-enough_fuel :
      (n fuel : ℕ)
      → Ends client n none
      → n ≤ fuel
      → read_bucket J client uri_base running fuel ≢ out_of_fuel
  unfolding read_bucket
  read_bucket-enough_fuel n fuel e le same =
      read_pages-enough_fuel n fuel 0 none [] e le (subst RunsOut (sym same) tt)

-- ===== src/Orm/Engine/Pages.antt =====
-- Iterate visits every row once, and its loop ends.
use mathlib.Core.List.{map-append}
use wlan_cloud_ucentralfms.Common.{
  ℕ, zero, suc, ◌+◌, ◌*◌, ◌≤◌, ◌<◌, ◌≡◌, refl, sym, ap, ◌∙◌, inl, inr, Bool, true, false, not, ◌||◌,
  Option, some, List, [], ◌∷◌, ◌++◌, map, arith, ltb, Bool-cases, length, take, drop,
  take-append-drop, take_of_length-take-lt, length-drop, drop-drop, length-take-le, length-map,
  Text,
}
use wlan_cloud_ucentralfms.Orm.Statements.{select_where}
use wlan_cloud_ucentralfms.Orm.Engine.{
  Engine, Convert, some_rows, get_records, visit, batch, iterate,
}

-- The rows that meet a clause come in one order, and LIMIT and OFFSET cut a page out of it, as long
-- as nothing is written in between.
pub record IsPaged {T : Type 0} (e : Engine T) : Type 0 where
  pub listing : Text → e.Db → List T
  pub page :
      (where_clause : Text) (offset how_many : ℕ) (db : e.Db)
      → e.query (select_where where_clause [] offset how_many) db
        ≡ some (take how_many (drop offset (listing where_clause db)))

-- The callback on every record in turn.
unfoldable pub visit_all {ℓ} : {R : Type 0} {S : Type ℓ} → (R → S → S) → List R → S → S
visit_all g [] s = s
visit_all g (r ∷ rs) s = visit_all g rs (g r s)

visit_all-append {ℓ} :
    {R : Type 0} {S : Type ℓ} (g : R → S → S) (xs ys : List R) (s : S)
    → visit_all g (xs ++ ys) s ≡ visit_all g ys (visit_all g xs s)
unfolding visit_all
visit_all-append g [] ys s = refl
visit_all-append g (x ∷ xs) ys s = visit_all-append g xs ys (g x s)

visit-visit_all {ℓ} :
    {R : Type 0} {S : Type ℓ} (g : R → S → S) (rs : List R) (s : S)
    → visit (λ r t. (true, g r t)) rs s ≡ (true, visit_all g rs s)
unfolding visit_all
visit-visit_all g [] s = refl
visit-visit_all g (r ∷ rs) s = visit-visit_all g rs (g r s)

short_page :
    {T R : Type 0} (page : List R) (xs : List T)
    → length page ≡ length (take batch xs)
    → ltb (length page) batch ≡ true
    → length (take batch xs) < batch
short_page page xs count short =
    let below : length page < batch = ground arith in omega (arith, count)

full_page :
    {T R : Type 0} (page : List R) (xs : List T)
    → length page ≡ length (take batch xs)
    → ltb (length page) batch ≡ false
    → batch ≤ length xs
full_page page xs count full =
    let above : batch ≤ length page = ground arith in omega (arith, count, length-take-le batch xs)

module _ {T R : Type 0} (c : Convert T R) (e : Engine T) (paged : IsPaged e) where
  records_page :
      (w : Text) (offset : ℕ) (db : e.Db)
      → get_records c e offset batch w [] db
        ≡ some_rows c.of_tuple (take batch (drop offset (paged.listing w db)))
  unfolding get_records
  records_page w offset db = rw (paged.page w offset batch db, get_records) refl

module _ {ℓ} {T R : Type 0} {S : Type ℓ} (c : Convert T R) (e : Engine T) (paged : IsPaged e) where
  module _ (g : R → S → S) (w : Text) (db : e.Db) where
    iterate-last :
        (fuel offset : ℕ) (page : List R) (s : S)
        → get_records c e offset batch w [] db ≡ some page
        → ltb (length page) batch ≡ true
        → iterate c e (suc fuel) offset (λ r t. (true, g r t)) w db s ≡ some (visit_all g page s)
    unfolding iterate
    iterate-last fuel offset page s found short =
        rw (found, iterate) (ground (arith, visit-visit_all g page s))

    iterate-more :
        (fuel offset : ℕ) (page : List R) (s : S)
        → get_records c e offset batch w [] db ≡ some page
        → ltb (length page) batch ≡ false
        → iterate c e (suc fuel) offset (λ r t. (true, g r t)) w db s
          ≡ iterate c e fuel (offset + batch) (λ r t. (true, g r t)) w db (visit_all g page s)
    unfolding iterate
    iterate-more fuel offset page s found full =
        rw (found, iterate)
          (ap
              (λ (v : Bool × S).
                let next : Option S = elim (not v.0 || ltb (length page) batch) [
                  | true ↦ some v.1
                  | false ↦ iterate c e fuel (offset + batch) (λ r t. (true, g r t)) w db v.1
                ] in
                next)
              (visit-visit_all g page s)
            ∙ rw full refl)

    -- One round, with the rest of the rows under `drop batch`.
    iterate-round :
        (fuel offset : ℕ) (xs : List T) (s : S)
        → drop offset (paged.listing w db) ≡ xs
        → ((t : S)
            → batch ≤ length xs
            → iterate c e fuel (offset + batch) (λ r t. (true, g r t)) w db t
              ≡ some (visit_all g (map c.of_tuple (drop batch xs)) t))
        → iterate c e (suc fuel) offset (λ r t. (true, g r t)) w db s
          ≡ some (visit_all g (map c.of_tuple xs) s)
    unfolding iterate
    iterate-round fuel offset [] s at rest =
        rw (records_page c e paged w offset db, at, iterate) (unfold visit_all in refl)
    iterate-round fuel offset (x ∷ xs) s at rest = elim (Bool-cases (ltb (length page) batch)) [
      | inl short ↦
          iterate-last fuel offset page s found short
          ∙ ap (λ l. some (visit_all g (map c.of_tuple l) s))
              (take_of_length-take-lt batch (x ∷ xs) (short_page page (x ∷ xs) count short))
      | inr full ↦
          iterate-more fuel offset page s found full
          ∙ rest (visit_all g page s) (full_page page (x ∷ xs) count full)
          ∙ ap some split
    ]
      where
        page : List R
        page = map c.of_tuple (take batch (x ∷ xs))

        count : length page ≡ length (take batch (x ∷ xs))
        count = length-map c.of_tuple (take batch (x ∷ xs))

        found : get_records c e offset batch w [] db ≡ some page
        found = rw (records_page c e paged w offset db, at) refl

        split :
            visit_all g (map c.of_tuple (drop batch (x ∷ xs))) (visit_all g page s)
            ≡ visit_all g (map c.of_tuple (x ∷ xs)) s
        split =
            sym (visit_all-append g page (map c.of_tuple (drop batch (x ∷ xs))) s)
            ∙ ap (λ l. visit_all g l s) (sym (map-append c.of_tuple (take batch (x ∷ xs)) _))
            ∙ ap (λ l. visit_all g (map c.of_tuple l) s) (take-append-drop batch (x ∷ xs))

  iterate-from :
      (g : R → S → S) (w : Text) (db : e.Db) (fuel offset : ℕ) (s : S)
      → length (drop offset (paged.listing w db)) < fuel * batch
      → iterate c e fuel offset (λ r t. (true, g r t)) w db s
        ≡ some (visit_all g (map c.of_tuple (drop offset (paged.listing w db))) s)
  iterate-from g w db zero offset s h = absurd (omega arith)
  iterate-from g w db (suc fuel) offset s h =
      iterate-round g w db fuel offset (drop offset (paged.listing w db)) s refl λ t full.
        rw (drop-drop offset batch (offset + batch) (paged.listing w db) refl) (
          iterate-from g w db fuel (offset + batch) t (
            omega (
              arith,
              length-drop offset (paged.listing w db),
              length-drop (offset + batch) (paged.listing w db),
            )))

  -- Where the rows of a clause are listed in one order, Iterate with a callback that never stops
  -- hands every row to it once, in that order, and ends: a round more than full batches is enough.
  pub iterate-visit_all :
      (g : R → S → S) (w : Text) (db : e.Db) (fuel : ℕ) (s : S)
      → length (paged.listing w db) < fuel * batch
      → iterate c e fuel 0 (λ r t. (true, g r t)) w db s
        ≡ some (visit_all g (map c.of_tuple (paged.listing w db)) s)
  iterate-visit_all g w db fuel s h = iterate-from g w db fuel 0 s h

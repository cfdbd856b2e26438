-- ===== src/Orm/Engine/Model.antt =====
-- An engine over lists of rows, which meets the laws: for tests and witnesses.
use mathlib.Core.Bool.{false≢true}
use wlan_cloud_ucentralfms.Common.{
  ℕ, zero, suc, ◌≡◌, refl, sym, ap, ◌∙◌, ◌≢◌, ◌↔◌, ◌⊎◌, inl, inr, Bool, true, false, not, Option,
  none, some, List, [], ◌∷◌, if◌then◌else◌, Bool-cases, ◌==◌, num_Eq, take, drop,
  take_of_length-take-lt, keep, In, Text, text_eq_iff, text_Eq,
}
use wlan_cloud_ucentralfms.Orm.Statements.{
  Statement, insert_row, select_all, select_by, select_where, update_by, delete_by, delete_where,
}
use wlan_cloud_ucentralfms.Orm.Engine.Laws.{IsTable, Accepts}
use wlan_cloud_ucentralfms.Orm.Engine.Pages.{IsPaged}
use wlan_cloud_ucentralfms.Orm.Engine.{Engine}

module _ {T : Type 0} (column : Text → T → Text) (holds : Text → T → Bool) where
  abbrev pub selected : Statement T → List T → Option (List T)
  selected select_all db = some db
  selected (select_by f v) db = some (take 1 (keep (λ t. column f t == v) db))
  selected (select_where w o m n) db = some (take n (drop m (keep (holds w) db)))
  selected s db = none

  abbrev pub replace : Text → Text → T → List T → List T
  replace f v r [] = []
  replace f v r (t ∷ ts) = (if column f t == v then r else t) ∷ replace f v r ts

  abbrev pub executed : Statement T → List T → Option (List T)
  executed (insert_row r) db = some (r ∷ db)
  executed (update_by f v r) db = some (replace f v r db)
  executed (delete_by f v) db = some (keep (λ t. not (column f t == v)) db)
  executed (delete_where w) db = some (keep (λ t. not (holds w t)) db)
  executed s db = some db

  abbrev pub list_engine : Engine T
  list_engine = record { Db = List T; query = selected; execute = executed }

In-keep :
    {T : Type 0} (p : T → Bool) (xs : List T) (t : T) → In t (keep p xs) ↔ (In t xs × (p t ≡ true))
In-keep p [] t = (λ h. absurd h, λ h. h.0)
In-keep p (x ∷ xs) t = elim (Bool-cases (p x)) [
  | inl kept ↦ rw kept (to_kept kept (In-keep p xs t), from_kept (In-keep p xs t))
  | inr left ↦ rw left (to_left (In-keep p xs t), from_left left (In-keep p xs t))
]
  where
    to_kept :
        p x ≡ true
        → In t (keep p xs) ↔ (In t xs × (p t ≡ true))
        → (t ≡ x) ⊎ In t (keep p xs)
        → ((t ≡ x) ⊎ In t xs) × (p t ≡ true)
    to_kept k ih (inl e) = (inl e, rw e k)
    to_kept k ih (inr h) = (inr (ih.0 h).0, (ih.0 h).1)

    from_kept :
        In t (keep p xs) ↔ (In t xs × (p t ≡ true))
        → ((t ≡ x) ⊎ In t xs) × (p t ≡ true)
        → (t ≡ x) ⊎ In t (keep p xs)
    from_kept ih (inl e, q) = inl e
    from_kept ih (inr h, q) = inr (ih.1 (h, q))

    to_left :
        In t (keep p xs) ↔ (In t xs × (p t ≡ true))
        → In t (keep p xs)
        → ((t ≡ x) ⊎ In t xs) × (p t ≡ true)
    to_left ih h = (inr (ih.0 h).0, (ih.0 h).1)

    from_left :
        p x ≡ false
        → In t (keep p xs) ↔ (In t xs × (p t ≡ true))
        → ((t ≡ x) ⊎ In t xs) × (p t ≡ true)
        → In t (keep p xs)
    from_left k ih (inl e, q) = absurd (false≢true (sym k ∙ ap p (sym e) ∙ q))
    from_left k ih (inr h, q) = ih.1 (h, q)

In-take : {T : Type 0} (n : ℕ) (xs : List T) (t : T) → In t (take n xs) → In t xs
In-take zero xs t h = absurd h
In-take (suc n) [] t h = h
In-take (suc n) (x ∷ xs) t (inl e) = inl e
In-take (suc n) (x ∷ xs) t (inr h) = inr (In-take n xs t h)

In-drop : {T : Type 0} (n : ℕ) (xs : List T) (t : T) → In t (drop n xs) → In t xs
In-drop zero xs t h = h
In-drop (suc n) [] t h = h
In-drop (suc n) (x ∷ xs) t h = inr (In-drop n xs t h)

not_eq : (s t : Text) → (not (s == t) ≡ true) ↔ (s ≢ t)
not_eq s t = elim (Bool-cases (s == t)) [
  | inl e ↦ rw e (λ h. cc, λ h. absurd (h ((text_eq_iff s t).0 e)))
  | inr e ↦ rw e (λ h p. false≢true (sym e ∙ (text_eq_iff s t).1 p), λ h. refl)
]

not-true : (b : Bool) → (not b ≡ true) ↔ (b ≡ false)
not-true true = (λ h. cc, λ h. cc)
not-true false = (λ h. refl, λ h. refl)

swap_sides : {A B : Type 0} → A ⊎ B → B ⊎ A
swap_sides (inl a) = inr a
swap_sides (inr b) = inl b

some_eq : {T : Type 0} {x y : T} → some x ≡ some y → x ≡ y
some_eq e = cc

module _ {T : Type 0} (column : Text → T → Text) (holds : Text → T → Bool) where
  In-replace :
      (f v : Text) (r : T) (xs : List T) (t : T)
      → In t (replace column holds f v r xs)
      → (In t xs × (column f t ≢ v)) ⊎ (t ≡ r)
  In-replace f v r [] t h = absurd h
  In-replace f v r (x ∷ xs) t (inl e) = elim (Bool-cases (column f x == v)) [
    | inl same ↦ inr (rw same at e)
    | inr other ↦
        let at_x : t ≡ x = rw other at e in
        inl (
          inl at_x,
          λ p. false≢true (sym other ∙ (text_eq_iff _ _).1 (ap (column f) (sym at_x) ∙ p)),
        )
  ]
  In-replace f v r (x ∷ xs) t (inr h) = elim (In-replace f v r xs t h) [
    | inl k ↦ inl (inr k.0, k.1)
    | inr e ↦ inr e
  ]

  In-replace_ne :
      (f v : Text) (r : T) (xs : List T) (t : T)
      → In t xs
      → column f t ≢ v
      → In t (replace column holds f v r xs)
  In-replace_ne f v r [] t h n = h
  In-replace_ne f v r (x ∷ xs) t (inl e) n = elim (Bool-cases (column f x == v)) [
    | inl same ↦ absurd (n (ap (column f) e ∙ (text_eq_iff _ _).0 same))
    | inr other ↦ rw other (inl e)
  ]
  In-replace_ne f v r (x ∷ xs) t (inr h) n = inr (In-replace_ne f v r xs t h n)

  -- The list engine keeps every law of a table, and never throws.
  pub list_engine-IsTable : IsTable (list_engine column holds) column holds
  list_engine-IsTable = record {
    rows = λ db. db;
    all_rows = λ db ts t e. let s = some_eq e in (λ h. rw s h, λ h. rw (← s) h);
    by_sound = λ f v db ts t e h.
        let s = some_eq e in
        let k =
          (In-keep (λ t. column f t == v) db t).0
            (In-take 1 (keep (λ t. column f t == v) db) t (rw s h)) in
        (k.0, (text_eq_iff _ _).0 k.1);
    where_sound = λ w o m n db ts t e h.
        let s = some_eq e in
        (In-keep (holds w) db t).0
          (In-drop m (keep (holds w) db) t (In-take n (drop m (keep (holds w) db)) t (rw s h)));
    where_complete = λ w o n db ts t e short h k.
        let s = some_eq e in
        let whole = take_of_length-take-lt n (keep (holds w) db) (rw s short) in
        rw (← s) (rw whole ((In-keep (holds w) db t).1 (h, k)));
    inserted = λ r db db' t e.
        let s = some_eq e in (λ h. swap_sides (rw (← s) at h), λ h. rw (← s) (swap_sides h));
    updated = λ f v r db db' t e h. In-replace f v r db t (rw (some_eq e) h);
    update_keeps = λ f v r db db' t e h n. rw (← some_eq e) (In-replace_ne f v r db t h n);
    deleted = λ f v db db' t e.
        let s = some_eq e in
        let k = In-keep (λ t. not (column f t == v)) db t in
        (
          λ h. let m = k.0 (rw s h) in (m.0, (not_eq _ _).0 m.1),
          λ h. rw (← s) (k.1 (h.0, (not_eq _ _).1 h.1)),
        );
    deleted_where = λ w db db' t e.
        let s = some_eq e in
        let k = In-keep (λ t. not (holds w t)) db t in
        (
          λ h. let m = k.0 (rw s h) in (m.0, (not-true _).0 m.1),
          λ h. rw (← s) (k.1 (h.0, (not-true _).1 h.1)),
        );
  }

  pub rows-list_engine : (db : List T) → list_engine-IsTable.rows db ≡ db
  unfolding list_engine-IsTable
  rows-list_engine db = refl

  pub list_engine-Accepts : Accepts (list_engine column holds)
  list_engine-Accepts (insert_row r) db = (_, refl)
  list_engine-Accepts (update_by f v r) db = (_, refl)
  list_engine-Accepts (delete_by f v) db = (_, refl)
  list_engine-Accepts (delete_where w) db = (_, refl)
  list_engine-Accepts s db = (db, refl)

  unfoldable pub list_engine-IsPaged : IsPaged (list_engine column holds)
  list_engine-IsPaged = record { listing = λ w db. keep (holds w) db; page = λ w m n db. refl }

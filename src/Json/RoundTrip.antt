-- ===== src/Json/RoundTrip.antt =====
-- What the to_json of a struct writes, its from_json reads back into a new struct.
use wlan_cloud_ucentralfms.Common.{
  ◌≡◌, refl, ◌∙◌, Bool, true, false, not, ◌&&◌, ◌||◌, some, List, [], ◌∷◌, arith, Text, text_eq,
  text_eq_refl,
}
use wlan_cloud_ucentralfms.Json.{Json, JsonLaws}
use wlan_cloud_ucentralfms.Json.Struct.{JsonField, to_json, from_json}

abbrev pub has_name : {Var R : Type 0} → Text → List (JsonField Var R) → Bool
has_name t [] = false
has_name t (f ∷ fs) = text_eq f.name t || has_name t fs

-- No two members have the same name.
abbrev pub distinct : {Var R : Type 0} → List (JsonField Var R) → Bool
distinct [] = true
distinct (f ∷ fs) = not (has_name f.name fs) && distinct fs

-- Each member is restored from what a parser makes of what is written of it, in a struct that had `d`'s members before.
abbrev pub Restores :
    {Var Object R : Type 0} → Json Var Object → List (JsonField Var R) → R → R → Type 0
Restores J [] r d = Unit
Restores J (f ∷ fs) r d =
    (f.codec.read (f.member d) (some (J.reread_value (f.codec.write (f.member r))))
      ≡ (true, f.member r))
    × Restores J fs r (f.put (f.member r) d)

infixr 4 ◌&◌
abbrev pub ◌&◌ : {A B : Type 0} → A → B → A × B
a & b = (a, b)

-- The struct `d` with the members of `r` in place of its own.
abbrev pub copied : {Var R : Type 0} → List (JsonField Var R) → R → R → R
copied [] r d = d
copied (f ∷ fs) r d = copied fs r (f.put (f.member r) d)

or_false : (a b : Bool) → (a || b) ≡ false → (a ≡ false) × (b ≡ false)
or_false true b h = ground arith
or_false false b h = (refl, h)

new_and_distinct : (a b : Bool) → (not a && b) ≡ true → (a ≡ false) × (b ≡ true)
new_and_distinct true b h = ground arith
new_and_distinct false b h = (refl, h)

module _ {Var Object : Type 0} (J : Json Var Object) (laws : JsonLaws J) where
  get-to_json_other :
      {R : Type 0} (fs : List (JsonField Var R)) (r : R) (t : Text) (o : Object)
      → has_name t fs ≡ false
      → J.get t (to_json J fs r o) ≡ J.get t o
  unfolding to_json
  get-to_json_other [] r t o h = refl
  get-to_json_other (f ∷ fs) r t o h =
      let (here, there) = or_false (text_eq f.name t) (has_name t fs) h in
      get-to_json_other fs r t _ there ∙ (laws.get-set f.name t _ o ∙ rw here refl)

  pub get-to_json_same :
      {R : Type 0} (f : JsonField Var R) (fs : List (JsonField Var R)) (r : R) (o : Object)
      → has_name f.name fs ≡ false
      → J.get f.name (to_json J (f ∷ fs) r o) ≡ some (f.codec.write (f.member r))
  unfolding to_json
  get-to_json_same f fs r o h =
      get-to_json_other fs r f.name _ h
      ∙ (laws.get-set f.name f.name _ o ∙ rw (text_eq_refl f.name) refl)

  -- Reading a list of members that have all been written.
  pub from_json_written :
      {R : Type 0} (fs : List (JsonField Var R)) (r d : R) (o : Object)
      → distinct fs ≡ true
      → Restores J fs r d
      → from_json J fs (J.reread (to_json J fs r o)) d ≡ (true, copied fs r d)
  unfolding to_json from_json
  from_json_written [] r d o h k = refl
  from_json_written (f ∷ fs) r d o h k =
      let (new, others) = new_and_distinct (has_name f.name fs) (distinct fs) h in
      rw (laws.get-reread, get-to_json_same f fs r o new, k.0)
        (from_json_written fs r (f.put (f.member r) d) _ others k.1)

-- ===== src/Json/Members.antt =====
-- Each type of member is read back as it was written, given what the JSON library documents.
use mathlib.Core.Option.{none-ne-some}
use wlan_cloud_ucentralfms.Common.{
  ℕ, ◌^◌, ◌<◌, ◌≡◌, refl, sym, ap, ◌∙◌, Bool, true, false, Option, some, List, [], ◌∷◌, ◌++◌, map,
  append-nil, append_assoc, All, All-mono, Text, codes, text_eq,
}
use wlan_cloud_ucentralfms.Json.{Json, bool_text, JsonLaws}
use wlan_cloud_ucentralfms.Json.Codecs.{
  Codec, text_codec, number_codec, bool_codec, named_codec, push_all, elements, text_list_codec,
}
use wlan_cloud_ucentralfms.Json.Struct.{
  JsonField, to_json, of_struct, object_codec, new_item, vector_codec, array_to_string,
  to_object_array,
}
use wlan_cloud_ucentralfms.Json.RoundTrip.{distinct, Restores, copied, from_json_written}

-- What a codec writes of `a`, it reads back from the parsed text into a member that holds `old`.
abbrev pub Restored : {Var Object A : Type 0} → Json Var Object → Codec Var A → A → A → Type 0
Restored J c a old = c.read old (some (J.reread_value (c.write a))) ≡ (true, a)

is_true_text-bool_text : (b : Bool) → text_eq (bool_text b) (codes "true") ≡ b
unfolding text_eq
is_true_text-bool_text true = refl
is_true_text-bool_text false = refl

module _ {Var Object : Type 0} (J : Json Var Object) (laws : JsonLaws J) where
  pub text-Restored : (a old : Text) → Restored J (text_codec J) a old
  unfolding text_codec
  text-Restored a old = rw (laws.text_null a, laws.to_text-of_text a) refl

  pub number-Restored : (a old : ℕ) → a < 2 ^ 64 → Restored J (number_codec J) a old
  unfolding number_codec
  number-Restored a old h = rw (laws.number_null a, laws.to_number-of_number a h) refl

  pub bool-Restored : (a old : Bool) → Restored J (bool_codec J) a old
  unfolding bool_codec
  bool-Restored a old =
      rw (laws.bool_null a, laws.to_text-of_bool a) (ap (λ b. (true, b)) (is_true_text-bool_text a))

  pub named-Restored :
      {A : Type 0} (to : A → Text) (of : Text → A) (a old : A)
      → of (to a) ≡ a
      → Restored J (named_codec J to of) a old
  unfolding named_codec
  named-Restored to of a old h =
      rw (laws.text_null (to a), laws.to_text-of_text (to a)) (ap (λ b. (true, b)) h)

  -- Pushing the written elements one by one adds the elements.
  pub push_all_written :
      {A : Type 0} (write : A → Var) (f : Var → Option A) (old rs : List A)
      → All (λ a. f (J.reread_value (write a)) ≡ some a) rs
      → push_all J f old (map J.reread_value (map write rs)) ≡ (true, old ++ rs)
  unfolding push_all
  push_all_written write f old [] h = ap (λ l. (true, l)) (sym (append-nil old))
  push_all_written write f old (a ∷ rs) h = rw h.0 (
      push_all_written write f (old ++ a ∷ []) rs h.1
      ∙ ap (λ l. (true, l)) (append_assoc old (a ∷ []) rs))

  pub elements-of_array :
      (vs : List Var)
      → elements J (some (J.reread_value (J.of_array vs))) ≡ some (map J.reread_value vs)
  elements-of_array vs = rw (laws.array_null vs) (laws.to_array-of_array vs)

  All-to_text : (ts : List Text) → All (λ t. J.to_text (J.reread_value (J.of_text t)) ≡ some t) ts
  All-to_text [] = tt
  All-to_text (t ∷ ts) = (laws.to_text-of_text t, All-to_text ts)

  pub text_list-Restored : (a old : List Text) → Restored J (text_list_codec J) a old
  unfolding text_list_codec
  text_list-Restored a old =
      rw (elements-of_array (map J.of_text a))
        (push_all_written J.of_text J.to_text [] a (All-to_text a))

  module _ {R : Type 0} (fs : List (JsonField Var R)) (unique : distinct fs ≡ true) where
    -- A struct, into a struct from which every member is restored.
    pub object-Restored :
        (a old : R)
        → Restores J fs a old
        → copied fs a old ≡ a
        → Restored J (object_codec J fs) a old
    unfolding object_codec
    object-Restored a old h same =
        rw
          (
            laws.object_null (to_json J fs a J.empty),
            laws.to_object-of_object (to_json J fs a J.empty),
            from_json_written J laws fs a old J.empty unique h,
          )
          (ap (λ r. (true, r)) same)

    pub new_item-of_struct :
        (fresh a : R)
        → Restores J fs a fresh
        → copied fs a fresh ≡ a
        → new_item J fs fresh (J.reread_value (of_struct J fs a)) ≡ some a
    unfolding new_item
    new_item-of_struct fresh a h same =
        rw
          (
            laws.to_object-of_object (to_json J fs a J.empty),
            from_json_written J laws fs a fresh J.empty unique h,
          )
          (ap some same)

    new_items :
        (fresh : R) (rs : List R)
        → All (λ a. Restores J fs a fresh × (copied fs a fresh ≡ a)) rs
        → All (λ a. new_item J fs fresh (J.reread_value (of_struct J fs a)) ≡ some a) rs
    new_items fresh rs =
        All-mono (λ a. Restores J fs a fresh × (copied fs a fresh ≡ a))
          (λ a. new_item J fs fresh (J.reread_value (of_struct J fs a)) ≡ some a)
          (λ a h. new_item-of_struct fresh a h.0 h.1) rs

    -- A vector of structs, into an empty vector.
    pub vector-Restored :
        (fresh : R) (rs : List R)
        → All (λ a. Restores J fs a fresh × (copied fs a fresh ≡ a)) rs
        → Restored J (vector_codec J fs fresh) rs []
    unfolding vector_codec
    vector-Restored fresh rs h =
        rw (elements-of_array (map (of_struct J fs) rs))
          (push_all_written (of_struct J fs) (new_item J fs fresh) [] rs (new_items fresh rs h))

    to_object_array_parsed :
        (fresh : R) (t : Text) (vs : List Var)
        → J.parse t ≡ some (J.reread_value (J.of_array vs))
        → to_object_array J fs fresh t
          ≡ (push_all J (new_item J fs fresh) [] (map J.reread_value vs)).1
    unfolding to_object_array
    to_object_array_parsed fresh [] vs h = absurd (none-ne-some _ (sym laws.parse_empty ∙ h))
    to_object_array_parsed fresh (c ∷ t) vs h = rw (h, laws.to_array-of_array vs) refl

    -- A vector that RESTAPI_utils::to_string made a text of is what to_object_array reads in it.
    pub to_object_array-array_to_string :
        (fresh : R) (rs : List R)
        → All (λ a. Restores J fs a fresh × (copied fs a fresh ≡ a)) rs
        → to_object_array J fs fresh (array_to_string J fs fresh rs) ≡ rs
    unfolding array_to_string push_all
    to_object_array-array_to_string fresh [] h =
        to_object_array_parsed fresh (codes "[]") [] laws.parse-nothing
    to_object_array-array_to_string fresh (r ∷ rs) h =
        let vs = map (of_struct J fs) (r ∷ rs) in
        to_object_array_parsed fresh (J.condense (J.of_array vs)) vs (laws.parse-condense vs)
        ∙ ap (λ p. p.1)
            (push_all_written (of_struct J fs) (new_item J fs fresh) [] (r ∷ rs)
              (new_items fresh (r ∷ rs) h))

-- ===== src/RestFramework/Bindings/Laws.antt =====
-- Which paths the end points of a handler match, and what their parameters are bound to.
use mathlib.Core.Bool.{false≢true, and-false}
use wlan_cloud_ucentralfms.Common.{
  suc, ◌+◌, ◌^◌, ◌<◌, ◌≡◌, refl, sym, ap, ◌∙◌, ◌≢◌, inl, inr, Bool, true, false, ◌&&◌, ◌||◌, List,
  [], ◌∷◌, ◌++◌, arith, num_eq, num_eq_iff, Bool-cases, num_Eq, ◌==◌, length, take, length-append,
  any_of, Text, text_eq_refl, text_Eq, Map, lookup, insert,
}
use wlan_cloud_ucentralfms.Poco.{Poco}
use wlan_cloud_ucentralfms.Service.{sub64}
use wlan_cloud_ucentralfms.RestFramework.Bindings.{
  opens_brace, param_name, match_items, items, parse_from, parse_bindings, get_binding,
}

-- As many items, each of which is the same or stands at a parameter.
abbrev pub fits : List Text → List Text → Bool
fits [] [] = true
fits [] (q ∷ qs) = false
fits (p ∷ ps) [] = false
fits (p ∷ ps) (q ∷ qs) = (p == q || opens_brace q) && fits ps qs

module _ (poco : Poco) where
  match_items-fits :
      (ps qs : List Text) (b : Map Text)
      → length ps ≡ length qs
      → (match_items poco ps qs b).0 ≡ fits ps qs
  unfolding match_items
  match_items-fits [] [] b h = refl
  match_items-fits [] (q ∷ qs) b h = absurd (omega arith)
  match_items-fits (p ∷ ps) [] b h = absurd (omega arith)
  match_items-fits (p ∷ ps) (q ∷ qs) b h =
      let e : length ps ≡ length qs = omega arith in
      elim (Bool-cases (p == q)) [
        | inl same ↦ rw same (match_items-fits ps qs b e)
        | inr other ↦ rw other (elim (Bool-cases (opens_brace q)) [
          | inl name ↦
              rw name (match_items-fits ps qs (insert (poco.to_lower (param_name q)) p b) e)
          | inr literal ↦ rw literal refl
        ])
      ]

  other_length : (ps qs : List Text) → length ps ≢ length qs → fits ps qs ≡ false
  other_length [] [] h = absurd (h refl)
  other_length [] (q ∷ qs) h = refl
  other_length (p ∷ ps) [] h = refl
  other_length (p ∷ ps) (q ∷ qs) h =
      rw (other_length ps qs (λ e. h (ap suc e))) (and-false (p == q || opens_brace q))

  parse_from-any :
      (ps : List Text) (es : List Text) (b : Map Text)
      → (parse_from poco ps es b).0 ≡ any_of (λ e. fits ps (items poco e)) es
  unfolding parse_from
  parse_from-any ps [] b = refl
  parse_from-any ps (e ∷ es) b = elim (Bool-cases (num_eq (length ps) (length (items poco e)))) [
    | inl as_many ↦
        let n = (num_eq_iff (length ps) (length (items poco e))).0 as_many in
        let m = match_items-fits ps (items poco e) b n in
        rw as_many (elim (Bool-cases (fits ps (items poco e))) [
          | inl t ↦ rw (m ∙ t, t) refl
          | inr f ↦ rw (m ∙ f, f) (parse_from-any ps es (match_items poco ps (items poco e) b).1)
        ])
    | inr more ↦
        let n =
          other_length ps (items poco e)
            (λ q. false≢true (sym more ∙ (num_eq_iff (length ps) (length (items poco e))).1 q)) in
        rw (more, n) (parse_from-any ps es b)
  ]

  -- ParseBindings returns true exactly when the path fits one of the end points: as many items between
  -- slashes, each of which is that of the end point, or stands where the end point has a parameter.
  pub parse_bindings-any :
      (path : Text) (end_points : List Text)
      → (parse_bindings poco path end_points).0
        ≡ any_of (λ e. fits (items poco path) (items poco e)) end_points
  unfolding parse_bindings
  parse_bindings-any path end_points = parse_from-any (items poco path) end_points []

abbrev pub brace : Text → Text
brace name = b'{' ∷ (name ++ b'}' ∷ [])

take_front : (s t : Text) → take (length s) (s ++ t) ≡ s
take_front [] t = refl
take_front (c ∷ s) t = ap (◌∷◌ c) (take_front s t)

-- The name between the braces, of a parameter whose text has fewer than 2 ^ 64 characters.
param_name-brace : (name : Text) → length name + 2 < 2 ^ 64 → param_name (brace name) ≡ name
unfolding param_name
param_name-brace name h =
    let size : sub64 (suc (length (name ++ b'}' ∷ []))) 2 ≡ length name =
      omega (arith, length-append name (b'}' ∷ [])) in
    ap (λ k. take k (name ++ b'}' ∷ [])) size ∙ take_front name (b'}' ∷ [])

module _ (poco : Poco) where
  match_items-last :
      (front : List Text) (q v : Text) (b : Map Text)
      → (v == q) ≡ false
      → opens_brace q ≡ true
      → match_items poco (front ++ v ∷ []) (front ++ q ∷ []) b
        ≡ (true, insert (poco.to_lower (param_name q)) v b)
  unfolding match_items
  match_items-last [] q v b other name = rw (other, name) refl
  match_items-last (p ∷ ps) q v b other name =
      rw (text_eq_refl p) (match_items-last ps q v b other name)

  -- A path that has the items of an end point up to a last parameter, and there a value: ParseBindings
  -- matches the end point when it is the handler's first, and GetBinding of the parameter's name is the
  -- value. (The parameter's text has fewer than 2 ^ 64 characters, and the value is not that text.)
  pub get_binding-parse_bindings :
      (path end_point name v default : Text) (front : List Text) (more : List Text)
      → items poco path ≡ front ++ v ∷ []
      → items poco end_point ≡ front ++ brace name ∷ []
      → length name + 2 < 2 ^ 64
      → (v == brace name) ≡ false
      → let (matched, b) = parse_bindings poco path (end_point ∷ more) in
        (matched ≡ true) × (get_binding poco name default b ≡ v)
  unfolding parse_bindings parse_from get_binding opens_brace lookup insert
  get_binding-parse_bindings path end_point name v default front more p q short other =
      let n : length (front ++ v ∷ []) ≡ length (front ++ brace name ∷ []) =
        omega (arith, length-append front (v ∷ []), length-append front (brace name ∷ [])) in
      rw
        (
          p,
          q,
          (num_eq_iff (length (front ++ v ∷ [])) (length (front ++ brace name ∷ []))).1 n,
          match_items-last front (brace name) v [] other refl,
          param_name-brace name short,
          get_binding,
          lookup,
        )
        (refl, rw (text_eq_refl (poco.to_lower name)) refl)

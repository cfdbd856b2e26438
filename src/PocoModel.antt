-- ===== src/PocoModel.antt =====
-- Concrete functions for the parameters of `Poco`, for tests and witnesses: a tokenizer over one
-- separator, the trimming of spaces, and the lower case of ASCII letters.
use wlan_cloud_ucentralfms.Common.{
  ℕ, ◌+◌, ◌≡◌, refl, ap, ◌&&◌, List, [], ◌∷◌, map, reverse, arith, leb, num_eq, if◌then◌else◌, Text,
}
use wlan_cloud_ucentralfms.Poco.{Poco}

-- The token in front of the first separator, with the rest of the tokens.
abbrev push_token : ℕ → List Text → List Text
push_token c [] = (c ∷ []) ∷ []
push_token c (t ∷ ts) = (c ∷ t) ∷ ts

abbrev pub split_on : ℕ → Text → List Text
split_on b [] = [] ∷ []
split_on b (c ∷ s) = let rest = split_on b s in if num_eq c b then [] ∷ rest else push_token c rest

abbrev pub trim_front : Text → Text
trim_front [] = []
trim_front (c ∷ s) = let rest = trim_front s in if num_eq c 32 then rest else c ∷ s

abbrev pub trim : Text → Text
trim s = reverse (trim_front (reverse (trim_front s)))

abbrev pub separator : Text → ℕ
separator [] = 0
separator (b ∷ s) = b

abbrev pub lower : ℕ → ℕ
lower c = if leb 65 c && leb c 90 then c + 32 else c

abbrev pub poco_model : Poco
poco_model = record {
  tokenize_trim = λ s seps. map trim (split_on (separator seps) s);
  tokenize = λ s seps. split_on (separator seps) s;
  to_lower = map lower;
}

lower_twice : (c : ℕ) → lower (lower c) ≡ lower c
lower_twice c = ground arith

pub to_lower_twice :
    (t : Text) → poco_model.to_lower (poco_model.to_lower t) ≡ poco_model.to_lower t
to_lower_twice [] = refl
to_lower_twice (c ∷ t) = rw (lower_twice c) (ap (◌∷◌ (lower c)) (to_lower_twice t))

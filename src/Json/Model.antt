-- ===== src/Json/Model.antt =====
-- A concrete JSON library for the witnesses, in which what is set and what a parser makes are the same: a value is a text that begins with a mark of its kind,
-- and holds its parts in a code in which each can be found again.
use mathlib.Core.Option
use wlan_cloud_ucentralfms.Common.{
  ℕ, zero, suc, ◌≡◌, refl, sym, ap, ◌∙◌, Bool, true, false, Option, none, some, List, [], ◌∷◌, ◌++◌,
  map, num_eq, if◌then◌else◌, Text, codes, Map, lookup, insert, lookup-insert, to_string,
}
use wlan_cloud_ucentralfms.Json.{Json, bool_text, JsonLaws}

-- Each part with 1 added to its codes and a 0 behind it.
abbrev pack : List Text → Text
pack [] = []
pack (t ∷ ts) = map suc t ++ 0 ∷ pack ts

abbrev push : ℕ → List Text → List Text
push c [] = (c ∷ []) ∷ []
push c (t ∷ ts) = (c ∷ t) ∷ ts

abbrev unpack : Text → List Text
unpack [] = []
unpack (zero ∷ s) = [] ∷ unpack s
unpack (suc c ∷ s) = push c (unpack s)

unpack_part : (t s : Text) → unpack (map suc t ++ 0 ∷ s) ≡ t ∷ unpack s
unpack_part [] s = refl
unpack_part (c ∷ t) s = ap (push c) (unpack_part t s)

unpack-pack : (ts : List Text) → unpack (pack ts) ≡ ts
unpack-pack [] = refl
unpack-pack (t ∷ ts) = unpack_part t (pack ts) ∙ ap (◌∷◌ t) (unpack-pack ts)

abbrev flat : Map Text → List Text
flat [] = []
flat ((k, v) ∷ m) = k ∷ v ∷ flat m

abbrev pairs : List Text → Map Text
pairs [] = []
pairs (k ∷ []) = []
pairs (k ∷ v ∷ ts) = (k, v) ∷ pairs ts

pairs-flat : (m : Map Text) → pairs (flat m) ≡ m
pairs-flat [] = refl
pairs-flat ((k, v) ∷ m) = ap (◌∷◌ (k, v)) (pairs-flat m)

-- The marks of texts, numbers, false, true, objects, arrays and null.
abbrev null_mark : Text → Bool
null_mark [] = true
null_mark (m ∷ s) = num_eq m 6

abbrev text_of : Text → Option Text
text_of [] = none
text_of (zero ∷ t) = some t
text_of (suc zero ∷ []) = none
text_of (suc zero ∷ n ∷ s) = some (to_string n)
text_of (suc (suc zero) ∷ s) = some (codes "false")
text_of (suc (suc (suc zero)) ∷ s) = some (codes "true")
text_of (suc (suc (suc (suc m))) ∷ s) = none

abbrev number_of : Text → Option ℕ
number_of (suc zero ∷ n ∷ s) = some n
number_of s = none

abbrev bool_value : Bool → Text
bool_value false = 2 ∷ []
bool_value true = 3 ∷ []

abbrev object_of : Text → Option (Map Text)
object_of [] = none
object_of (m ∷ s) = if num_eq m 4 then some (pairs (unpack s)) else none

abbrev array_of : Text → Option (List Text)
array_of [] = none
array_of (m ∷ s) = if num_eq m 5 then some (unpack s) else none

abbrev parsed : Text → Option Text
parsed [] = none
parsed (m ∷ s) = if num_eq m 91 then some (5 ∷ []) else some (m ∷ s)

abbrev pub json_model : Json Text (Map Text)
json_model = record {
  empty = [];
  set = insert;
  get = lookup;
  is_null = null_mark;
  of_text = λ t. 0 ∷ t;
  of_number = λ n. 1 ∷ n ∷ [];
  of_bool = bool_value;
  of_object = λ o. 4 ∷ pack (flat o);
  of_array = λ vs. 5 ∷ pack vs;
  to_text = text_of;
  to_number = number_of;
  to_object = object_of;
  to_array = array_of;
  condense = λ v. v;
  parse = parsed;
  reread = λ o. o;
  reread_value = λ v. v;
}

bool_mark : (b : Bool) → null_mark (bool_value b) ≡ false
bool_mark true = refl
bool_mark false = refl

text_of_bool : (b : Bool) → text_of (bool_value b) ≡ some (bool_text b)
text_of_bool true = refl
text_of_bool false = refl

map_same : (vs : List Text) → map (λ v. v) vs ≡ vs
map_same [] = refl
map_same (v ∷ vs) = ap (◌∷◌ v) (map_same vs)

reread_same : (o : Option Text) → o ≡ Option.map (λ v. v) o
reread_same none = refl
reread_same (some v) = refl

pub json_model_laws : JsonLaws json_model
unfolding lookup
json_model_laws = record {
  get-empty = λ f. refl;
  get-reread = λ f o. reread_same (lookup f o);
  get-set = λ f g v o. lookup-insert f g v o;
  text_null = λ t. refl;
  number_null = λ n. refl;
  bool_null = bool_mark;
  object_null = λ o. refl;
  array_null = λ vs. refl;
  to_text-of_text = λ t. refl;
  to_text-of_bool = text_of_bool;
  to_number-of_number = λ n h. refl;
  to_object-of_object = λ o. ap some (ap pairs (unpack-pack (flat o)) ∙ pairs-flat o);
  to_array-of_array = λ vs. ap some (unpack-pack vs ∙ sym (map_same vs));
  parse-condense = λ vs. refl;
  parse-nothing = refl;
  parse_empty = refl;
}

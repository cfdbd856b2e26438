-- ===== src/Json.antt =====
-- The JSON library that the source reads and writes objects with (Poco::JSON and Poco::Dynamic::Var),
-- taken as parameters: their code is not part of the repository. `JsonLaws` is what they document.
pub mod Codecs
pub mod Struct
pub mod Members
pub mod Model
pub mod RoundTrip
use wlan_cloud_ucentralfms.Common.{
  ℕ, ◌^◌, ◌<◌, ◌≡◌, Bool, true, false, Option, none, some, List, [], map, if◌then◌else◌, Text,
  codes, text_eq,
}
use mathlib.Core.Option

-- A failed conversion throws: the result is `none`.
pub record Json (Var Object : Type 0) : Type 0 where
  -- a new Poco::JSON::Object
  pub empty : Object
  -- Object::set
  pub set : Text → Var → Object → Object
  -- Object::get, with none where Object::has is false
  pub get : Text → Object → Option Var
  -- Object::isNull, of a value that is there
  pub is_null : Var → Bool
  pub of_text : Text → Var
  pub of_number : ℕ → Var
  pub of_bool : Bool → Var
  pub of_object : Object → Var
  pub of_array : List Var → Var
  -- Var::toString
  pub to_text : Var → Option Text
  -- the conversion to uint64_t
  pub to_number : Var → Option ℕ
  -- Var::extract<Object::Ptr>, and the test Object::isObject
  pub to_object : Var → Option Object
  -- Var::extract<Array::Ptr>, and the test Object::isArray
  pub to_array : Var → Option (List Var)
  -- Stringifier::condense of an array, and Parser::parse
  pub condense : Var → Text
  pub parse : Text → Option Var
  -- What Parser::parse makes of the text of an object and of a value. The source sets objects and arrays
  -- by value, and reads them by extract<Object::Ptr> and getArray, which take only what a parser made:
  -- an object is read by its text.
  pub reread : Object → Object
  pub reread_value : Var → Var

abbrev pub bool_text : Bool → Text
bool_text true = codes "true"
bool_text false = codes "false"

pub record JsonLaws {Var Object : Type 0} (J : Json Var Object) : Type 0 where
  pub get-empty : (f : Text) → J.get f J.empty ≡ none
  pub get-set :
      (f g : Text) (v : Var) (o : Object)
      → J.get g (J.set f v o) ≡ (if text_eq f g then some v else J.get g o)
  pub get-reread :
      (f : Text) (o : Object) → J.get f (J.reread o) ≡ Option.map J.reread_value (J.get f o)
  pub text_null : (t : Text) → J.is_null (J.reread_value (J.of_text t)) ≡ false
  pub number_null : (n : ℕ) → J.is_null (J.reread_value (J.of_number n)) ≡ false
  pub bool_null : (b : Bool) → J.is_null (J.reread_value (J.of_bool b)) ≡ false
  pub object_null : (o : Object) → J.is_null (J.reread_value (J.of_object o)) ≡ false
  pub array_null : (vs : List Var) → J.is_null (J.reread_value (J.of_array vs)) ≡ false
  pub to_text-of_text : (t : Text) → J.to_text (J.reread_value (J.of_text t)) ≡ some t
  pub to_text-of_bool : (b : Bool) → J.to_text (J.reread_value (J.of_bool b)) ≡ some (bool_text b)
  pub to_number-of_number :
      (n : ℕ) → n < 2 ^ 64 → J.to_number (J.reread_value (J.of_number n)) ≡ some n
  pub to_object-of_object :
      (o : Object) → J.to_object (J.reread_value (J.of_object o)) ≡ some (J.reread o)
  pub to_array-of_array :
      (vs : List Var) → J.to_array (J.reread_value (J.of_array vs)) ≡ some (map J.reread_value vs)
  pub parse-condense :
      (vs : List Var) → J.parse (J.condense (J.of_array vs)) ≡ some (J.reread_value (J.of_array vs))
  pub parse-nothing : J.parse (codes "[]") ≡ some (J.reread_value (J.of_array []))
  pub parse_empty : J.parse [] ≡ none

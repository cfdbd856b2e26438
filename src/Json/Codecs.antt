-- ===== src/Json/Codecs.antt =====
-- src/framework/RESTAPI_utils.h: how one member of a struct is written to a JSON object and read from
-- it, for each type of member that the source overloads field_to_json and field_from_json on.
use wlan_cloud_ucentralfms.Common.{
  ℕ, Bool, true, false, Option, none, some, List, [], ◌∷◌, ◌++◌, map, if◌then◌else◌, ◌>>=◌, Text,
  codes, text_eq, Map,
}
use mathlib.Core.Option
use wlan_cloud_ucentralfms.Json.{Json}

-- `write` is the value that field_to_json sets. `read` is field_from_json: from the value the member
-- has and the value of the field (none: the object has no such field), whether it returns (false: it
-- throws) and the value the member has then.
pub record Codec (Var A : Type 0) : Type 0 where
  pub write : A → Var
  pub read : A → Option Var → Bool × A

-- What an assignment leaves when its right-hand side may throw.
abbrev pub assign : {A : Type 0} → A → Option A → Bool × A
assign old none = (false, old)
assign old (some a) = (true, a)

module _ {Var Object : Type 0} (J : Json Var Object) where
  -- if (Obj->has(Field) && !Obj->isNull(Field)) Value = ...
  abbrev pub when_present : {A : Type 0} → (Var → Option A) → A → Option Var → Bool × A
  when_present f old none = (true, old)
  when_present f old (some v) = if J.is_null v then (true, old) else assign old (f v)

  -- std::string
  unfoldable pub text_codec : Codec Var Text
  text_codec = record { write = J.of_text; read = when_present J.to_text }

  -- uint64_t
  unfoldable pub number_codec : Codec Var ℕ
  number_codec = record { write = J.of_number; read = when_present J.to_number }

  abbrev pub is_true_text : Text → Bool
  is_true_text t = text_eq t (codes "true")

  -- bool
  unfoldable pub bool_codec : Codec Var Bool
  bool_codec = record {
    write = J.of_bool;
    read = when_present (λ v. Option.map is_true_text (J.to_text v));
  }

  -- A member with functions from and to std::string.
  unfoldable pub named_codec : {A : Type 0} → (A → Text) → (Text → A) → Codec Var A
  named_codec to of = record {
    write = λ a. J.of_text (to a);
    read = when_present (λ v. Option.map of (J.to_text v));
  }

  -- Value.push_back(f(i)) for each i of the array; a throw leaves what was pushed before it.
  unfoldable pub push_all : {A : Type 0} → (Var → Option A) → List A → List Var → Bool × List A
  push_all f old [] = (true, old)
  push_all f old (v ∷ vs) = elim (f v) [
    | none ↦ (false, old)
    | some a ↦ push_all f (old ++ a ∷ []) vs
  ]

  -- if (Obj->isArray(Field) && !Obj->isNull(Field)) ...
  abbrev pub elements : Option Var → Option (List Var)
  elements none = none
  elements (some v) = if J.is_null v then none else J.to_array v

  -- Types::StringVec: Value.clear(), then the elements.
  abbrev pub refill : {A : Type 0} → (Var → Option A) → List A → Option (List Var) → Bool × List A
  refill f old none = (true, old)
  refill f old (some vs) = push_all f [] vs

  -- std::vector<T>: the elements are pushed onto what is there.
  abbrev pub append_to :
      {A : Type 0} → (Var → Option A) → List A → Option (List Var) → Bool × List A
  append_to f old none = (true, old)
  append_to f old (some vs) = push_all f old vs

  unfoldable pub text_list_codec : Codec Var (List Text)
  unfolding push_all
  text_list_codec = record {
    write = λ ts. J.of_array (map J.of_text ts);
    read = λ old v. refill J.to_text old (elements v);
  }

  -- Types::TagList
  unfoldable pub tag_list_codec : Codec Var (List ℕ)
  unfolding push_all
  tag_list_codec = record {
    write = λ ns. J.of_array (map J.of_number ns);
    read = λ old v. refill J.to_number old (elements v);
  }

  abbrev pub tag_value : Text → Var → Var
  tag_value key v =
      J.of_object (J.set (codes "value") v (J.set (codes "tag") (J.of_text key) J.empty))

  abbrev pub text_pair : Text × Text → Var
  text_pair p = tag_value p.0 (J.of_text p.1)

  abbrev pub text_or_empty : Option Var → Option Text
  text_or_empty none = some []
  text_or_empty (some v) = J.to_text v

  abbrev pub pair_of_object : Object → Option (Text × Text)
  pair_of_object o = do
    first ← text_or_empty (J.get (codes "tag") o)
    second ← text_or_empty (J.get (codes "value") o)
    some (first, second)

  abbrev pub pair_of : Var → Option (Text × Text)
  pair_of v = J.to_object v >>= pair_of_object

  -- Types::StringPairVec
  unfoldable pub pair_list_codec : Codec Var (List (Text × Text))
  unfolding push_all
  pair_list_codec = record {
    write = λ ps. J.of_array (map text_pair ps);
    read = λ old v. append_to pair_of old (elements v);
  }

  abbrev pub counter : Text × ℕ → Var
  counter p = tag_value p.0 (J.of_number p.1)

  -- Types::CountedMap, which is only written.
  unfoldable pub counted_map_to_json : Text → Map ℕ → Object → Object
  counted_map_to_json f m o = J.set f (J.of_array (map counter m)) o

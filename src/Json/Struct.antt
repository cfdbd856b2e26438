-- ===== src/Json/Struct.antt =====
-- The pairs to_json and from_json of the structs of src/RESTObjects, described by the list of their
-- members in the order in which both name them, and the parts of src/framework/RESTAPI_utils.h that
-- write and read members which are structs themselves.
use wlan_cloud_ucentralfms.Common.{
  String, Bool, true, false, Option, none, some, List, [], ◌∷◌, map, if◌then◌else◌, ◌>>=◌, Text,
  codes, is_empty,
}
use wlan_cloud_ucentralfms.Json.{Json}
use wlan_cloud_ucentralfms.Json.Codecs.{Codec, push_all, elements, append_to}

-- One line of a to_json and of the from_json beside it.
pub record JsonField (Var R : Type 0) : Type 1 where
  pub Member : Type 0
  pub name : Text
  pub codec : Codec Var Member
  pub member : R → Member
  pub put : Member → R → R

abbrev pub field :
    {Var R A : Type 0} → String → Codec Var A → (R → A) → (A → R → R) → JsonField Var R
field {A} s c m p = record { Member = A; name = codes s; codec = c; member = m; put = p }

module _ {Var Object : Type 0} (J : Json Var Object) where
  -- T::to_json: field_to_json for each member.
  unfoldable pub to_json : {R : Type 0} → List (JsonField Var R) → R → Object → Object
  to_json [] r o = o
  to_json (f ∷ fs) r o = to_json fs r (J.set f.name (f.codec.write (f.member r)) o)

  -- T::from_json: field_from_json for each member inside a try block, whose catch returns false; the
  -- members that were read keep their new values.
  unfoldable pub from_json : {R : Type 0} → List (JsonField Var R) → Object → R → Bool × R
  from_json [] o r = (true, r)
  from_json (f ∷ fs) o r =
      let (done, a) = f.codec.read (f.member r) (J.get f.name o) in
      let next = f.put a r in let rest = from_json fs o next in if done then rest else (false, next)

  module _ {R : Type 0} (fs : List (JsonField Var R)) where
    abbrev pub of_struct : R → Var
    of_struct r = J.of_object (to_json fs r J.empty)

    abbrev read_member : R → Option Object → Bool × R
    read_member old none = (true, old)
    read_member old (some o) = (true, (from_json fs o old).1)

    abbrev as_object : Option Var → Option Object
    as_object none = none
    as_object (some v) = if J.is_null v then none else J.to_object v

    -- A member that is a struct; what its from_json returns is not looked at.
    unfoldable pub object_codec : Codec Var R
    unfolding to_json from_json
    object_codec = record { write = of_struct; read = λ old v. read_member old (as_object v) }

    module _ (fresh : R) where
      -- T NewItem; NewItem.from_json(i.extract<Object::Ptr>())
      unfoldable pub new_item : Var → Option R
      unfolding from_json
      new_item v = do o ← J.to_object v; some (from_json fs o fresh).1

      -- std::vector<T>
      unfoldable pub vector_codec : Codec Var (List R)
      unfolding push_all to_json new_item
      vector_codec = record {
        write = λ rs. J.of_array (map of_struct rs);
        read = λ old v. append_to J new_item old (elements J v);
      }

      -- RESTAPI_utils::to_string(const std::vector<T> &)
      unfoldable pub array_to_string : List R → Text
      unfolding to_json
      array_to_string [] = codes "[]"
      array_to_string (r ∷ rs) = J.condense (J.of_array (map of_struct (r ∷ rs)))

      abbrev parsed : Option (List Var) → List R
      unfolding push_all new_item
      parsed none = []
      parsed (some vs) = (push_all J new_item [] vs).1

      -- RESTAPI_utils::to_object_array
      unfoldable pub to_object_array : Text → List R
      unfolding push_all new_item
      to_object_array t = if is_empty t then [] else parsed (J.parse t >>= J.to_array)

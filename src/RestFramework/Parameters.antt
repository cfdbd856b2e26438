-- ===== src/RestFramework/Parameters.antt =====
-- The parameters of a query (src/framework/RESTAPI_Handler.h): GetParameter, GetBoolParameter,
-- HasParameter, MakeList and InitQueryBlock. What may throw returns an option, none for the exception.
pub mod Laws
use wlan_cloud_ucentralfms.Common.{
  ℕ, Bool, true, false, not, ◌&&◌, ◌||◌, Option, none, some, List, [], ◌∷◌, ◌++◌, ltb, leb,
  if◌then◌else◌, ◌>>=◌, num_Eq, ◌==◌, all_of, Text, codes, text_Eq, is_empty, decimal_value,
}
use wlan_cloud_ucentralfms.Poco.{Poco}
use wlan_cloud_ucentralfms.Service.{word64}

-- Parameters_: the names and values in the order of the query.
abbrev pub Parameters : Type 0
Parameters = List (Text × Text)

-- std::find_if
unfoldable pub find_parameter : Text → Parameters → Option Text
find_parameter name [] = none
find_parameter name ((k, v) ∷ ps) = if k == name then some v else find_parameter name ps

-- ::isdigit
abbrev pub is_digit : ℕ → Bool
is_digit c = leb b'0' c && leb c b'9'

unfoldable pub is_number : Text → Bool
is_number s = not (is_empty s) && all_of is_digit s

-- std::stoull of decimal digits, which throws when the number has more than 64 bits.
unfoldable pub stoull : Text → Option ℕ
stoull s = let n = decimal_value 0 s in if ltb n word64 then some n else none

abbrev pub number_or : ℕ → Option Text → Option ℕ
number_or default none = some default
number_or default (some v) = if is_number v then stoull v else some default

unfoldable pub get_parameter_number : Text → ℕ → Parameters → Option ℕ
unfolding find_parameter is_number stoull
get_parameter_number name default ps = number_or default (find_parameter name ps)

abbrev pub is_bool : Text → Bool
is_bool s = s == codes "true" || s == codes "false"

abbrev pub bool_or : Bool → Option Text → Bool
bool_or default none = default
bool_or default (some v) = if is_bool v then v == codes "true" else default

unfoldable pub get_bool_parameter : Text → Bool → Parameters → Bool
unfolding find_parameter
get_bool_parameter name default ps = bool_or default (find_parameter name ps)

abbrev pub text_or : Text → Option Text → Text
text_or default none = default
text_or default (some v) = v

unfoldable pub get_parameter : Text → Text → Parameters → Text
unfolding find_parameter
get_parameter name default ps = text_or default (find_parameter name ps)

-- HasParameter: whether the parameter is there, and what the reference then holds.
unfoldable pub has_parameter : Text → Parameters → Text → Bool × Text
unfolding find_parameter
has_parameter name ps value = elim (find_parameter name ps) [
  | none ↦ (false, value)
  | some v ↦ (true, v)
]

-- MakeList, on top of what is there of the list.
unfoldable pub make_list_from : Text → List Text → Text
make_list_from s [] = s
make_list_from s (i ∷ l) = make_list_from (if is_empty s then i else s ++ (codes ", " ++ i)) l

unfoldable pub make_list : List Text → Text
unfolding make_list_from
make_list l = make_list_from [] l

pub record QueryBlock : Type 0 where
  pub start_date : ℕ
  pub end_date : ℕ
  pub offset : ℕ
  pub limit : ℕ
  pub log_type : ℕ
  pub serial_number : Text
  pub filter : Text
  pub select : List Text
  pub lifetime : Bool
  pub last_only : Bool
  pub newest : Bool
  pub count_only : Bool
  pub additional_info : Bool

-- InitQueryBlock, the first time that it is called for a handler.
unfoldable pub init_query_block : Poco → Parameters → Option QueryBlock
unfolding get_parameter get_parameter_number get_bool_parameter
init_query_block poco ps = do
  start_date ← get_parameter_number (codes "startDate") 0 ps
  end_date ← get_parameter_number (codes "endDate") 0 ps
  offset ← get_parameter_number (codes "offset") 0 ps
  limit ← get_parameter_number (codes "limit") 100 ps
  log_type ← get_parameter_number (codes "logType") 0 ps
  some (record {
    start_date = start_date;
    end_date = end_date;
    offset = offset;
    limit = limit;
    log_type = log_type;
    serial_number = get_parameter (codes "serialNumber") [] ps;
    filter = get_parameter (codes "filter") [] ps;
    select = poco.tokenize (get_parameter (codes "select") [] ps) (codes ",");
    lifetime = get_bool_parameter (codes "lifetime") false ps;
    last_only = get_bool_parameter (codes "lastOnly") false ps;
    newest = get_bool_parameter (codes "newest") false ps;
    count_only = get_bool_parameter (codes "countOnly") false ps;
    additional_info = get_bool_parameter (codes "withExtendedInfo") false ps;
  })

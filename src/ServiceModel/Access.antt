-- ===== src/ServiceModel/Access.antt =====
-- Requests, tokens and keys on concrete caches, and a firmware through JSON.
use wlan_cloud_ucentralfms.AuthClient.{
  ExpireCache, SecurityAnswer, ApiKeyCacheEntry, AuthResult, is_token_expired, is_authorized,
  is_valid_api_key, timeout, ok_object,
}
use wlan_cloud_ucentralfms.AuthClient.Laws.{is_authorized-fresh, is_valid_api_key-expired}
use wlan_cloud_ucentralfms.Common.{
  ◌≡◌, refl, true, false, none, some, [], ◌∷◌, arith, ltb, Text, codes, text_eq, text_eq_refl, Map,
  lookup, insert, lookup-insert, decimal_value,
}
use wlan_cloud_ucentralfms.FmsObjects.{Firmware}
use wlan_cloud_ucentralfms.FmsObjects.Firmwares.{
  fresh_firmware, firmware_fields, firmware_from_json,
}
use wlan_cloud_ucentralfms.FmsObjects.RoundTrips.{firmware_from_json-to_json}
use wlan_cloud_ucentralfms.Json.Model.{json_model, json_model_laws}
use wlan_cloud_ucentralfms.Json.Struct.{to_json}
use wlan_cloud_ucentralfms.PocoModel.{poco_model}
use wlan_cloud_ucentralfms.RestFramework.Bindings.{opens_brace, parse_bindings, get_binding}
use wlan_cloud_ucentralfms.RestFramework.Bindings.Laws.{
  parse_bindings-any, get_binding-parse_bindings,
}
use wlan_cloud_ucentralfms.RestFramework.Dispatch.{
  Request, HandlerOptions, continue_processing, dispatch, request_authorized, handle_request,
  do_get, escaped,
}
use wlan_cloud_ucentralfms.RestFramework.Dispatch.Laws.{
  IsLetThrough, handle_request-called, dispatch-escaped,
}
use wlan_cloud_ucentralfms.RestFramework.Parameters.{
  Parameters, find_parameter, is_number, stoull, get_parameter_number, get_bool_parameter,
  get_parameter, init_query_block,
}
use wlan_cloud_ucentralfms.SecurityObjects.{fresh_user_login_login_extensions}
use wlan_cloud_ucentralfms.SecurityObjects.Users.{
  UserInfo, UserInfoAndPolicy, fresh_web_token, admin,
}
use wlan_cloud_ucentralfms.ServiceModel.{sample_firmware}

-- A cache that keeps everything.
abbrev pub map_cache : (V : Type 0) → ExpireCache V
map_cache V = record {
  Store = Map V;
  get = λ k m. (lookup k m, m);
  update = insert;
  remove = λ k m. m;
}

abbrev plain_user : UserInfo
plain_user = record {
  id = codes "u";
  name = [];
  description = [];
  avatar = [];
  email = codes "u@x";
  validated = true;
  validation_email = [];
  validation_date = 0;
  creation_date = 0;
  validation_uri = [];
  change_password = false;
  last_login = 0;
  current_login_uri = [];
  last_password_change = 0;
  last_email_check = 0;
  waiting_for_email_check = false;
  locale = [];
  notes = [];
  location = [];
  owner = [];
  suspended = false;
  black_listed = false;
  user_role = admin;
  user_type_proprietary_info = fresh_user_login_login_extensions;
  security_policy = [];
  security_policy_change = 0;
  current_password = [];
  last_passwords = [];
  oauth_type = [];
  oauth_user_info = [];
  modified = 0;
  signing_up = [];
}

abbrev sample_user : UserInfoAndPolicy
sample_user = record {
  webtoken = record fresh_web_token { created = 500; expires_in = 1000 };
  userinfo = plain_user;
}

abbrev nothing_set : AuthResult
nothing_set = record { allowed = false; user = sample_user; expired = false; contacted = false }

abbrev silent : Text → SecurityAnswer (Map Text)
silent t = timeout

abbrev user_cache : Map UserInfoAndPolicy
user_cache = (codes "token", sample_user) ∷ []

abbrev old_key : ApiKeyCacheEntry
old_key = record { user_info = sample_user; expires_on = 900 }

abbrev key_cache : Map ApiKeyCacheEntry
key_cache = (codes "key", old_key) ∷ []

is_authorized-fresh_example : (is_token_expired 1000 sample_user.webtoken ≡ false) × (false ≡ false)
unfolding is_authorized lookup text_eq is_token_expired
is_authorized-fresh_example =
    is_authorized-fresh json_model text_eq (map_cache UserInfoAndPolicy)
      (map_cache ApiKeyCacheEntry) silent 1000 (codes "token") nothing_set user_cache refl

-- The answer of the security service for a key that is good until 900.
abbrev key_answer_object : Map Text
key_answer_object =
    (codes "tokenInfo", json_model.of_object [])
    ∷ (codes "userInfo", json_model.of_object [])
    ∷ (codes "expiresOn", json_model.of_number 900)
    ∷ []

abbrev confirming : Text → SecurityAnswer (Map Text)
confirming t = ok_object key_answer_object

map_cache-kept :
    (k : Text) (e : ApiKeyCacheEntry) (m : Map ApiKeyCacheEntry) → lookup k (insert k e m) ≡ some e
map_cache-kept k e m = rw (lookup-insert k k e m, text_eq_refl k) refl

is_valid_api_key-expired_example :
    (is_valid_api_key json_model text_eq
      (map_cache UserInfoAndPolicy)
      (map_cache ApiKeyCacheEntry)
      silent
      1000
      (codes "key")
      nothing_set
      (is_valid_api_key json_model text_eq
        (map_cache UserInfoAndPolicy)
        (map_cache ApiKeyCacheEntry)
        confirming
        500
        (codes "key")
        nothing_set
        []).1).0.allowed
    ≡ ltb 900 1000
unfolding lookup text_eq
is_valid_api_key-expired_example =
    is_valid_api_key-expired json_model text_eq (map_cache UserInfoAndPolicy)
      (map_cache ApiKeyCacheEntry) map_cache-kept confirming silent 500 1000 (codes "key")
      nothing_set nothing_set [] key_answer_object 900 refl refl refl refl refl refl refl

abbrev noted_firmware : Firmware
noted_firmware = record (sample_firmware (codes "ap") (codes "r1") 30) {
  notes = record { created = 5; created_by = codes "u@x"; note = codes "fine" } ∷ [];
}

firmware_from_json-to_json_example :
    firmware_from_json json_model
      (json_model.reread (to_json json_model (firmware_fields json_model) noted_firmware []))
      fresh_firmware
    ≡ (true, noted_firmware)
firmware_from_json-to_json_example =
    firmware_from_json-to_json json_model json_model_laws noted_firmware
      (omega arith, omega arith, omega arith, (omega arith, tt), omega arith)

get_binding-parse_bindings_example :
    let (matched, b) =
      parse_bindings poco_model (codes "/firmware/f-1") (codes "/firmware/{id}" ∷ []) in
    (matched ≡ true) × (get_binding poco_model (codes "id") [] b ≡ codes "f-1")
unfolding text_eq
get_binding-parse_bindings_example =
    get_binding-parse_bindings poco_model (codes "/firmware/f-1") (codes "/firmware/{id}")
      (codes "id") (codes "f-1") [] ([] ∷ codes "firmware" ∷ []) [] refl refl (omega arith) refl

parse_bindings-any_example :
    (parse_bindings poco_model (codes "/firmware/f-1") (codes "/x" ∷ codes "/firmware/{id}" ∷ [])).0
    ≡ true
unfolding text_eq opens_brace
parse_bindings-any_example =
    parse_bindings-any poco_model (codes "/firmware/f-1") (codes "/x" ∷ codes "/firmware/{id}" ∷ [])

abbrev query : Parameters
query = (codes "limit", codes "20") ∷ []

abbrev large_query : Parameters
large_query = (codes "limit", codes "20000000000000000000") ∷ []

abbrev get_request : Request (Map Text)
get_request = record {
  method = codes "GET";
  content_length = 0;
  content_type = [];
  body = none;
  internal_name = none;
  api_key = none;
  bearer = some (codes "token");
  query = some query;
}

abbrev get_options : HandlerOptions
get_options = record {
  methods = codes "GET" ∷ codes "OPTIONS" ∷ [];
  internal = false;
  always_authorize = true;
  rate_limited = false;
  interval = 1000;
  max_calls = 100;
}

handle_request-called_example :
    IsLetThrough json_model text_eq
      (map_cache UserInfoAndPolicy)
      (map_cache ApiKeyCacheEntry)
      silent
      silent
      (codes "hash")
      get_options
      1000
      true
      get_request
      nothing_set
      (user_cache, key_cache)
      do_get
unfolding handle_request dispatch continue_processing request_authorized is_authorized
    is_token_expired init_query_block get_parameter_number get_parameter get_bool_parameter
    find_parameter is_number stoull decimal_value lookup text_eq
handle_request-called_example =
    handle_request-called json_model text_eq (map_cache UserInfoAndPolicy)
      (map_cache ApiKeyCacheEntry) silent silent (codes "hash") poco_model get_options 1000 true
      get_request nothing_set (user_cache, key_cache) do_get refl

dispatch-escaped_example :
    dispatch poco_model none (record get_request { query = some large_query }) ≡ escaped
unfolding find_parameter is_number decimal_value text_eq
dispatch-escaped_example =
    dispatch-escaped poco_model none (record get_request { query = some large_query }) large_query
      (codes "20000000000000000000") refl refl refl (omega arith)

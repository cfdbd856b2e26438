-- ===== src/AuthClient.antt =====
-- src/framework/AuthClient.cpp and AuthClient.h: the check of tokens and API keys against two caches
-- and the security service. Poco's ExpireLRUCache and the answers of the security service are
-- parameters.
pub mod Laws
use wlan_cloud_ucentralfms.Common.{
  ℕ, ◌+◌, ◌%◌, Bool, true, false, ◌&&◌, Option, none, some, ltb, if◌then◌else◌, ◌>>=◌, Text, codes,
}
use wlan_cloud_ucentralfms.Json.{Json}
use wlan_cloud_ucentralfms.Json.Struct.{from_json}
use wlan_cloud_ucentralfms.SecurityObjects.Users.{
  WebToken, UserInfoAndPolicy, user_info_and_policy_fields,
}
use wlan_cloud_ucentralfms.Service.{word64}

-- Poco::ExpireLRUCache<std::string, V>; a get may change what the cache will drop next.
pub record ExpireCache (V : Type 0) : Type 1 where
  pub Store : Type 0
  pub get : Text → Store → Option V × Store
  pub update : Text → V → Store → Store
  pub remove : Text → Store → Store

-- What a request to the security service comes to: a gateway timeout, an object with the status OK,
-- another status, or an exception.
pub data SecurityAnswer (Object : Type 0) : Type 0 where
  timeout other_status threw : SecurityAnswer Object
  ok_object : Object → SecurityAnswer Object

-- AuthClient::ApiKeyCacheEntry
pub record ApiKeyCacheEntry : Type 0 where
  pub user_info : UserInfoAndPolicy
  pub expires_on : ℕ

-- The result of a check and the references that it sets.
pub record AuthResult : Type 0 where
  pub allowed : Bool
  pub user : UserInfoAndPolicy
  pub expired : Bool
  pub contacted : Bool

-- expires_in_ + created_ wraps around at 64 bits.
unfoldable pub is_token_expired : ℕ → WebToken → Bool
is_token_expired now t = ltb ((t.expires_in + t.created) % word64) now

module _ {Var Object : Type 0} (J : Json Var Object) (same_letters : Text → Text → Bool)
    (tokens : ExpireCache UserInfoAndPolicy) (api_keys : ExpireCache ApiKeyCacheEntry) where
  abbrev pub read_user : Object → UserInfoAndPolicy → UserInfoAndPolicy
  read_user o u = (from_json J (user_info_and_policy_fields J same_letters) o u).1

  abbrev pub has_field : Text → Object → Bool
  has_field f o = elim (J.get f o) [ none ↦ false | some v ↦ true ]

  -- The token that came with the object.
  abbrev pub check_token :
      ℕ → Text → UserInfoAndPolicy → AuthResult → tokens.Store → AuthResult × tokens.Store
  check_token now token u r cache =
      if is_token_expired now u.webtoken
      then (record r { allowed = false; user = u; expired = true }, cache)
      else (record r { allowed = true; user = u; expired = false }, tokens.update token u cache)

  abbrev pub token_answer :
      ℕ → Text → SecurityAnswer Object → AuthResult → tokens.Store → AuthResult × tokens.Store
  token_answer now token timeout r cache = (record r { allowed = false; contacted = false }, cache)
  token_answer now token other_status r cache =
      (record r { allowed = false; contacted = true; expired = false }, cache)
  token_answer now token threw r cache = (record r { allowed = false; expired = false }, cache)
  token_answer now token (ok_object o) r cache =
      let reached : AuthResult = record r { contacted = true } in
      if has_field (codes "tokenInfo") o && has_field (codes "userInfo") o
      then check_token now token (read_user o r.user) reached cache
      else (record reached { allowed = false }, cache)

  -- `ask` is the answer of the security service to a token; `r` has what the references hold before.
  unfoldable pub retrieve_token_information :
      (Text → SecurityAnswer Object)
      → ℕ
      → Text
      → AuthResult
      → tokens.Store
      → AuthResult × tokens.Store
  retrieve_token_information ask now token r cache = token_answer now token (ask token) r cache

  abbrev pub cached_user :
      (Text → SecurityAnswer Object)
      → ℕ
      → Text
      → AuthResult
      → Option UserInfoAndPolicy
      → tokens.Store
      → AuthResult × tokens.Store
  cached_user ask now token r none cache = retrieve_token_information ask now token r cache
  cached_user ask now token r (some u) cache =
      if is_token_expired now u.webtoken
      then (record r { allowed = false; expired = true }, tokens.remove token cache)
      else (record r { allowed = true; user = u; expired = false }, cache)

  unfoldable pub is_authorized :
      (Text → SecurityAnswer Object)
      → ℕ
      → Text
      → AuthResult
      → tokens.Store
      → AuthResult × tokens.Store
  unfolding retrieve_token_information
  is_authorized ask now token r cache =
      let (user, cache') = tokens.get token cache in cached_user ask now token r user cache'

  abbrev pub store_key :
      Text
      → UserInfoAndPolicy
      → Option ℕ
      → AuthResult
      → api_keys.Store
      → AuthResult × api_keys.Store
  store_key key u none r cache = (record r { allowed = false; user = u; expired = false }, cache)
  store_key key u (some t) r cache = (
    record r { allowed = true; user = u; expired = false },
    api_keys.update key (record { user_info = u; expires_on = t }) cache,
  )

  abbrev pub key_answer :
      Text → SecurityAnswer Object → AuthResult → api_keys.Store → AuthResult × api_keys.Store
  key_answer key timeout r cache = (record r { allowed = false; contacted = false }, cache)
  key_answer key other_status r cache =
      (record r { allowed = false; contacted = true; expired = false }, cache)
  key_answer key threw r cache = (record r { allowed = false; expired = false }, cache)
  key_answer key (ok_object o) r cache =
      let reached : AuthResult = record r { contacted = true } in
      if has_field (codes "tokenInfo") o
        && has_field (codes "userInfo") o
        && has_field (codes "expiresOn") o
      then store_key key (read_user o r.user) (J.get (codes "expiresOn") o >>= J.to_number) reached
          cache
      else (record reached { allowed = false }, cache)

  unfoldable pub retrieve_api_key_information :
      (Text → SecurityAnswer Object)
      → Text
      → AuthResult
      → api_keys.Store
      → AuthResult × api_keys.Store
  retrieve_api_key_information ask key r cache = key_answer key (ask key) r cache

  abbrev pub cached_key :
      (Text → SecurityAnswer Object)
      → ℕ
      → Text
      → AuthResult
      → Option ApiKeyCacheEntry
      → api_keys.Store
      → AuthResult × api_keys.Store
  cached_key ask now key r none cache = retrieve_api_key_information ask key r cache
  cached_key ask now key r (some e) cache =
      let asked = retrieve_api_key_information ask key r (api_keys.remove key cache) in
      if ltb e.expires_on now
      then (record r { allowed = true; user = e.user_info; expired = false }, cache)
      else asked

  unfoldable pub is_valid_api_key :
      (Text → SecurityAnswer Object)
      → ℕ
      → Text
      → AuthResult
      → api_keys.Store
      → AuthResult × api_keys.Store
  unfolding retrieve_api_key_information
  is_valid_api_key ask now key r cache =
      let (entry, cache') = api_keys.get key cache in cached_key ask now key r entry cache'

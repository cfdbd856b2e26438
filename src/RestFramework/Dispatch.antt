-- ===== src/RestFramework/Dispatch.antt =====
-- RESTAPIHandler::handleRequest, ContinueProcessing and IsAuthorized (src/framework/RESTAPI_Handler.h).
pub mod Laws
use wlan_cloud_ucentralfms.Common.{
  ℕ, Bool, true, false, not, ◌&&◌, Option, none, some, List, [], ltb, if◌then◌else◌, ◌>>=◌, num_Eq,
  ◌==◌, any_of, Text, codes, text_Eq, contains,
}
use wlan_cloud_ucentralfms.Poco.{Poco}
use wlan_cloud_ucentralfms.Json.{Json}
use wlan_cloud_ucentralfms.SecurityObjects.Users.{UserInfoAndPolicy}
use wlan_cloud_ucentralfms.AuthClient.{
  ExpireCache, SecurityAnswer, ApiKeyCacheEntry, AuthResult, is_authorized, is_valid_api_key,
}
use wlan_cloud_ucentralfms.RestFramework.Parameters.{Parameters, QueryBlock, init_query_block}

-- What handleRequest asks of a request. `body` is what the JSON parser makes of its stream (none: it
-- throws); `bearer` is the token of OAuth20Credentials (none: the scheme is another, or it throws);
-- `query` is what Poco::URI makes of the parameters (none: it throws).
pub record Request (Object : Type 0) : Type 0 where
  pub method : Text
  pub content_length : ℕ
  pub content_type : Text
  pub body : Option Object
  pub internal_name : Option Text
  pub api_key : Option Text
  pub bearer : Option Text
  pub query : Option Parameters

-- The members of a handler that its constructor sets.
pub record HandlerOptions : Type 0 where
  pub methods : List Text
  pub internal : Bool
  pub always_authorize : Bool
  pub rate_limited : Bool
  pub interval : ℕ
  pub max_calls : ℕ

-- RESTAPI::Errors that handleRequest answers with.
pub data RequestError : Type 0 where
  rate_limit_exceeded expired_token invalid_token security_service_unreachable
        unsupported_http_method internal_error :
      RequestError

-- The method of the handler that is called.
pub data HandlerMethod : Type 0 where
  do_get do_post do_delete do_put : HandlerMethod

-- How handleRequest ends: an answer of its own, a call of a method with the parsed body and the query
-- block, or an exception that is none of Poco's.
pub data Outcome (Object : Type 0) : Type 0 where
  unauthorized bad_request : RequestError → Outcome Object
  options : Outcome Object
  call : HandlerMethod → Option Object → QueryBlock → Outcome Object
  escaped : Outcome Object

abbrev pub http_method : Text → Option HandlerMethod
http_method m =
    if m == codes "GET"
    then some do_get
    else if m == codes "POST"
    then some do_post
    else if m == codes "DELETE"
    then some do_delete
    else if m == codes "PUT"
    then some do_put
    else none

-- What ContinueProcessing answers when it returns false.
unfoldable pub continue_processing :
    {Object : Type 0} → HandlerOptions → Request Object → Option (Outcome Object)
continue_processing h r =
    if r.method == codes "OPTIONS"
    then some options
    else if any_of (λ m. m == r.method) h.methods
    then none
    else some (bad_request unsupported_http_method)

abbrev pub refusal : {Object : Type 0} → AuthResult → Outcome Object
refusal a =
    if a.expired
    then unauthorized expired_token
    else if a.contacted
    then unauthorized invalid_token
    else unauthorized security_service_unreachable

abbrev pub call_method :
    {Object : Type 0} → Option HandlerMethod → Option Object → QueryBlock → Outcome Object
call_method none body q = bad_request unsupported_http_method
call_method (some m) body q = call m body q

-- ParseParameters, and the call of a method.
unfoldable pub dispatch : {Object : Type 0} → Poco → Option Object → Request Object → Outcome Object
dispatch poco body r = elim r.query [
  | none ↦ bad_request internal_error
  | some ps ↦ elim (init_query_block poco ps) [
    | none ↦ escaped
    | some q ↦ call_method (http_method r.method) body q
  ]
]

-- The body that is kept: none inside when there is none to parse, none outside when the parser throws.
abbrev pub parse_body : {Object : Type 0} → Request Object → Option (Option Object)
parse_body r =
    let parsed = (do o ← r.body; some (some o)) in
    if ltb 0 r.content_length && contains (codes "application/json") r.content_type
    then parsed
    else some none

module _ {Var Object : Type 0} (J : Json Var Object) (same_letters : Text → Text → Bool)
    (tokens : ExpireCache UserInfoAndPolicy) (api_keys : ExpireCache ApiKeyCacheEntry)
    (ask_token ask_key : Text → SecurityAnswer Object) (my_hash : Text) where
  abbrev Caches : Type 0
  Caches = tokens.Store × api_keys.Store

  abbrev pub or_empty : Option Text → Text
  or_empty none = []
  or_empty (some t) = t

  -- MicroService::IsValidAPIKEY
  abbrev pub is_valid_internal_key : Request Object → Bool
  is_valid_internal_key r = elim r.api_key [ none ↦ false | some k ↦ k == my_hash ]

  abbrev by_key : ℕ → Text → AuthResult → Caches → AuthResult × Caches
  by_key now key before c =
      let (a, c') = is_valid_api_key J same_letters tokens api_keys ask_key now key before c.1 in
      (a, (c.0, c'))

  abbrev by_token : ℕ → Text → AuthResult → Caches → AuthResult × Caches
  by_token now token before c =
      let (a, c') = is_authorized J same_letters tokens api_keys ask_token now token before c.0 in
      (a, (c', c.1))

  abbrev is_there : Option Text → Bool
  is_there none = false
  is_there (some t) = true

  -- IsAuthorized of the handler.
  unfoldable pub request_authorized :
      HandlerOptions → ℕ → Request Object → AuthResult → Caches → AuthResult × Caches
  unfolding is_authorized is_valid_api_key
  request_authorized h now r before c =
      let allowed = is_valid_internal_key r in
      if h.internal && is_there r.internal_name
      then (record before { allowed = allowed; contacted = true }, c)
      else if not h.internal && is_there r.api_key
      then by_key now (or_empty r.api_key) before c
      else by_token now (or_empty r.bearer) before c

  abbrev authorized_outcome : Poco → Option Object → Request Object → AuthResult → Outcome Object
  authorized_outcome poco body r a = if a.allowed then dispatch poco body r else refusal a

  abbrev pub after_checks :
      Poco
      → HandlerOptions
      → ℕ
      → Option Object
      → Request Object
      → AuthResult
      → Caches
      → Option (Outcome Object)
      → Outcome Object × Caches
  after_checks poco h now body r before c (some o) = (o, c)
  after_checks poco h now body r before c none =
      let (a, c') = request_authorized h now r before c in
      if h.always_authorize
      then (authorized_outcome poco body r a, c')
      else (dispatch poco body r, c)

  abbrev pub with_body :
      Poco
      → HandlerOptions
      → ℕ
      → Bool
      → Request Object
      → AuthResult
      → Caches
      → Option (Option Object)
      → Outcome Object × Caches
  with_body poco h now limited r before c none = (bad_request internal_error, c)
  with_body poco h now limited r before c (some body) =
      let checked = after_checks poco h now body r before c (continue_processing h r) in
      if h.rate_limited && limited then (unauthorized rate_limit_exceeded, c) else checked

  -- handleRequest, with the answer of the rate limiter; `before` is a result with nothing set.
  unfoldable pub handle_request :
      Poco
      → HandlerOptions
      → ℕ
      → Bool
      → Request Object
      → AuthResult
      → Caches
      → Outcome Object × Caches
  unfolding continue_processing dispatch request_authorized
  handle_request poco h now limited r before c =
      with_body poco h now limited r before c (parse_body r)

-- ===== src/RestFramework/Dispatch/Laws.antt =====
-- Which requests reach a method of a handler.
use wlan_cloud_ucentralfms.AuthClient.{ExpireCache, SecurityAnswer, ApiKeyCacheEntry, AuthResult}
use wlan_cloud_ucentralfms.Common.{
  ℕ, ◌≤◌, ◌≡◌, refl, sym, ap, ◌∙◌, ◌⊎◌, inl, inr, Bool, true, false, ◌&&◌, Option, none, some,
  if◌then◌else◌, if_true, if_false, Bool-cases, Option-cases, num_Eq, ◌==◌, any_of, Text, codes,
  text_eq_iff, text_Eq, decimal_value,
}
use wlan_cloud_ucentralfms.Json.{Json}
use wlan_cloud_ucentralfms.Poco.{Poco}
use wlan_cloud_ucentralfms.RestFramework.Dispatch.{
  Request, HandlerOptions, HandlerMethod, Outcome, http_method, continue_processing, refusal,
  call_method, dispatch, parse_body, request_authorized, after_checks, with_body, handle_request,
  rate_limit_exceeded, unsupported_http_method, do_get, do_post, do_delete, do_put, unauthorized,
  bad_request, options, call, escaped,
}
use wlan_cloud_ucentralfms.RestFramework.Parameters.{
  Parameters, find_parameter, is_number, QueryBlock, init_query_block,
}
use wlan_cloud_ucentralfms.RestFramework.Parameters.Laws.{
  get_parameter_number-large, init_query_block-large,
}
use wlan_cloud_ucentralfms.SecurityObjects.Users.{UserInfoAndPolicy}
use wlan_cloud_ucentralfms.Service.{word64}
use mathlib.Core.Path.{subst}
use mathlib.Core.Bool.{true≢false}
use mathlib.Core.Option.{none-ne-some}

-- The method that an outcome calls.
abbrev pub called : {Object : Type 0} → Outcome Object → Option HandlerMethod
called (unauthorized e) = none
called (bad_request e) = none
called options = none
called (call m body q) = some m
called escaped = none

called-call_method :
    {Object : Type 0} (o : Option HandlerMethod) (body : Option Object) (q : QueryBlock)
    → called (call_method o body q) ≡ o
called-call_method none body q = refl
called-call_method (some m) body q = refl

called-refusal : (Object : Type 0) (a : AuthResult) → called {Object = Object} (refusal a) ≡ none
called-refusal Object a = elim (Bool-cases a.expired) [
  | inl e ↦ rw e refl
  | inr e ↦ rw e (elim (Bool-cases a.contacted) [ inl c ↦ rw c refl | inr c ↦ rw c refl ])
]

-- The HTTP method of a method of the handler.
abbrev pub method_name : HandlerMethod → Text
method_name do_get = codes "GET"
method_name do_post = codes "POST"
method_name do_delete = codes "DELETE"
method_name do_put = codes "PUT"

named :
    (t : Text) (m k : HandlerMethod) (o : Option HandlerMethod)
    → (o ≡ some m → t ≡ method_name m)
    → (if t == method_name k then some k else o) ≡ some m
    → t ≡ method_name m
named t m k o other e = elim (Bool-cases (t == method_name k)) [
  | inl same ↦
      let here : some k ≡ some m = sym (if_true (t == method_name k) (some k) o same) ∙ e in
      (text_eq_iff t (method_name k)).0 same ∙ ap method_name (method-injective here)
  | inr differs ↦ other (sym (if_false (t == method_name k) (some k) o differs) ∙ e)
]
  where
    method-injective : some k ≡ some m → k ≡ m
    method-injective h = cc

http_method-named : (t : Text) (m : HandlerMethod) → http_method t ≡ some m → t ≡ method_name m
http_method-named t m = named t m do_get _ (
    named t m do_post _
      (named t m do_delete _ (named t m do_put none (λ e. absurd (none-ne-some m e)))))

module _ {Object : Type 0} where
  called-dispatch :
      (poco : Poco) (body : Option Object) (r : Request Object) (m : HandlerMethod)
      → called (dispatch poco body r) ≡ some m
      → http_method r.method ≡ some m
  unfolding dispatch
  called-dispatch poco body r m h = elim (Option-cases r.query) [
    | inl e ↦ absurd (none-ne-some m (rw (e, dispatch, called) at h))
    | inr (ps, e) ↦ elim (Option-cases (init_query_block poco ps)) [
      | inl f ↦ absurd (none-ne-some m (rw (e, f, dispatch, called) at h))
      | inr (q, f) ↦
          sym (called-call_method (http_method r.method) body q) ∙ (rw (e, f, dispatch) at h)
    ]
  ]

  called-if :
      (b : Bool) (x y : Outcome Object) (m : HandlerMethod)
      → called (if b then x else y) ≡ some m
      → ((b ≡ true) × (called x ≡ some m)) ⊎ ((b ≡ false) × (called y ≡ some m))
  called-if true x y m h = inl (refl, h)
  called-if false x y m h = inr (refl, h)

  called-if_paired :
      {S : Type 0} (b : Bool) (x y : Outcome Object × S) (m : HandlerMethod)
      → called (if b then x else y).0 ≡ some m
      → ((b ≡ true) × (called x.0 ≡ some m)) ⊎ ((b ≡ false) × (called y.0 ≡ some m))
  called-if_paired true x y m h = inl (refl, h)
  called-if_paired false x y m h = inr (refl, h)

  -- A request goes on past ContinueProcessing with one of the handler's methods, or is answered there.
  continue_processing-cases :
      (h : HandlerOptions) (r : Request Object)
      → ((continue_processing h r ≡ none) × (any_of (λ m. m == r.method) h.methods ≡ true))
        ⊎ ((o : Outcome Object) × (continue_processing h r ≡ some o) × (called o ≡ none))
  unfolding continue_processing
  continue_processing-cases h r = elim (Bool-cases (r.method == codes "OPTIONS")) [
    | inl e ↦ inr (options, rw e refl, refl)
    | inr e ↦ elim (Bool-cases (any_of (λ m. m == r.method) h.methods)) [
      | inl f ↦ inl (rw (e, f) refl, f)
      | inr f ↦ inr (bad_request unsupported_http_method, rw (e, f) refl, refl)
    ]
  ]

module _ {Var Object : Type 0} (J : Json Var Object) (same_letters : Text → Text → Bool)
    (tokens : ExpireCache UserInfoAndPolicy) (api_keys : ExpireCache ApiKeyCacheEntry)
    (ask_token ask_key : Text → SecurityAnswer Object) (my_hash : Text) where
  -- What a request is that reaches the method `m`.
  abbrev pub IsLetThrough :
      HandlerOptions
      → ℕ
      → Bool
      → Request Object
      → AuthResult
      → tokens.Store × api_keys.Store
      → HandlerMethod
      → Type 0
  IsLetThrough h now limited r before c m =
      (r.method ≡ method_name m)
      × (any_of (λ k. k == r.method) h.methods ≡ true)
      × ((h.rate_limited && limited) ≡ false)
      × (h.always_authorize ≡ true
          → (request_authorized J same_letters tokens api_keys ask_token ask_key my_hash h now r
              before c).0.allowed
            ≡ true)

  abbrev auth :
      HandlerOptions → ℕ → Request Object → AuthResult → tokens.Store × api_keys.Store → AuthResult
  auth h now r before c =
      (request_authorized J same_letters tokens api_keys ask_token ask_key my_hash h now r before
        c).0

  after_checks-called :
      (poco : Poco) (h : HandlerOptions) (now : ℕ) (body : Option Object) (r : Request Object)
      (before : AuthResult) (c : tokens.Store × api_keys.Store) (m : HandlerMethod)
      → called
          (after_checks J same_letters tokens api_keys ask_token ask_key my_hash poco h now body r
            before c none).0
        ≡ some m
      → (http_method r.method ≡ some m)
        × (h.always_authorize ≡ true → (auth h now r before c).allowed ≡ true)
  after_checks-called poco h now body r before c m k =
      let a = auth h now r before c in
      elim (called-if_paired h.always_authorize _ (dispatch poco body r, c) m k) [
        | inl (on, d) ↦ elim (called-if a.allowed (dispatch poco body r) (refusal a) m d) [
          | inl (allowed, e) ↦ (called-dispatch poco body r m e, λ _. allowed)
          | inr (refused, e) ↦ absurd (none-ne-some m (sym (called-refusal Object a) ∙ e))
        ]
        | inr (off, d) ↦ (called-dispatch poco body r m d, λ on. absurd (true≢false (sym on ∙ off)))
      ]

  abbrev checks :
      Poco
      → HandlerOptions
      → ℕ
      → Option Object
      → Request Object
      → AuthResult
      → tokens.Store × api_keys.Store
      → Option (Outcome Object)
      → Outcome Object × (tokens.Store × api_keys.Store)
  checks = after_checks J same_letters tokens api_keys ask_token ask_key my_hash

  with_body-called :
      (poco : Poco) (h : HandlerOptions) (now : ℕ) (limited : Bool) (r : Request Object)
      (before : AuthResult) (c : tokens.Store × api_keys.Store) (o : Option (Option Object))
      (m : HandlerMethod)
      → called
          (with_body J same_letters tokens api_keys ask_token ask_key my_hash poco h now limited r
            before c o).0
        ≡ some m
      → IsLetThrough h now limited r before c m
  with_body-called poco h now limited r before c none m k = absurd (none-ne-some m k)
  with_body-called poco h now limited r before c (some body) m k =
      elim (called-if_paired (h.rate_limited && limited) (unauthorized rate_limit_exceeded, c) _ m
        k) [
          | inl (over, d) ↦ absurd (none-ne-some m d)
          | inr (within, d) ↦ elim (continue_processing-cases h r) [
            | inl (on, listed) ↦
                let (method, allowed) =
                  after_checks-called poco h now body r before c m
                    (subst (λ o. called (checks poco h now body r before c o).0 ≡ some m) on d) in
                (http_method-named r.method m method, listed, within, allowed)
            | inr (o, stop, not_called) ↦ absurd (
                none-ne-some m (
                  sym not_called
                  ∙ subst (λ x. called (checks poco h now body r before c x).0 ≡ some m) stop d))
          ]
        ]

  -- Whatever the caches and the security service say: a request that handleRequest passes to a method
  -- of the handler has the HTTP method of that name, which the handler lists; it is not beyond the
  -- rate of a handler that limits it; and IsAuthorized let it in, if the handler always authorizes.
  pub handle_request-called :
      (poco : Poco) (h : HandlerOptions) (now : ℕ) (limited : Bool) (r : Request Object)
      (before : AuthResult) (c : tokens.Store × api_keys.Store) (m : HandlerMethod)
      → called
          (handle_request J same_letters tokens api_keys ask_token ask_key my_hash poco h now
            limited r before c).0
        ≡ some m
      → IsLetThrough h now limited r before c m
  unfolding handle_request
  handle_request-called poco h now limited r before c m =
      with_body-called poco h now limited r before c (parse_body r) m

-- A request whose limit is written in decimal digits and stands for a number of more than 64 bits is
-- not answered by the handler once it gets past the checks: the exception of std::stoull leaves
-- handleRequest, which catches those of Poco only.
pub dispatch-escaped :
    {Object : Type 0} (poco : Poco) (body : Option Object) (r : Request Object) (ps : Parameters)
    (v : Text)
    → r.query ≡ some ps
    → find_parameter (codes "limit") ps ≡ some v
    → is_number v ≡ true
    → word64 ≤ decimal_value 0 v
    → dispatch poco body r ≡ escaped
unfolding dispatch
dispatch-escaped poco body r ps v query found digits large =
    rw
      (
        query,
        init_query_block-large poco ps
            (get_parameter_number-large (codes "limit") 100 ps v found digits large),
        dispatch,
      )
      refl

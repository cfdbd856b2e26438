-- ===== src/AuthClient/Laws.antt =====
-- Whom the checks of AuthClient let in.
use wlan_cloud_ucentralfms.AuthClient.{
  ExpireCache, SecurityAnswer, ApiKeyCacheEntry, AuthResult, is_token_expired, read_user, has_field,
  check_token, token_answer, retrieve_token_information, cached_user, is_authorized, key_answer,
  retrieve_api_key_information, cached_key, is_valid_api_key, timeout, other_status, threw,
  ok_object,
}
use wlan_cloud_ucentralfms.Common.{
  ℕ, ◌≡◌, refl, ap, ◌∙◌, inl, inr, Bool, true, false, Option, none, some, ltb, if◌then◌else◌,
  Bool-cases, ◌>>=◌, Text, codes,
}
use wlan_cloud_ucentralfms.Json.{Json}
use wlan_cloud_ucentralfms.SecurityObjects.Users.{UserInfoAndPolicy}
use mathlib.Core.Bool.{false≢true}

module _ {Var Object : Type 0} (J : Json Var Object) (same_letters : Text → Text → Bool)
    (tokens : ExpireCache UserInfoAndPolicy) (api_keys : ExpireCache ApiKeyCacheEntry)
    (ask : Text → SecurityAnswer Object) (now : ℕ) where
  -- Whoever is let in has a token that is not expired.
  abbrev IsFresh : AuthResult → Type 0
  IsFresh r =
      r.allowed ≡ true → (is_token_expired now r.user.webtoken ≡ false) × (r.expired ≡ false)

  check_token-IsFresh :
      (token : Text) (u : UserInfoAndPolicy) (r : AuthResult) (cache : tokens.Store)
      → IsFresh (check_token J same_letters tokens api_keys now token u r cache).0
  check_token-IsFresh token u r cache = elim (Bool-cases (is_token_expired now u.webtoken)) [
    | inl old ↦ rw old (λ h. absurd (false≢true h))
    | inr young ↦ rw young (λ h. (young, refl))
  ]

  if_IsFresh :
      (b : Bool) (x y : AuthResult × tokens.Store)
      → IsFresh x.0
      → IsFresh y.0
      → IsFresh (if b then x else y).0
  if_IsFresh true x y h k = h
  if_IsFresh false x y h k = k

  token_answer-IsFresh :
      (token : Text) (a : SecurityAnswer Object) (r : AuthResult) (cache : tokens.Store)
      → IsFresh (token_answer J same_letters tokens api_keys now token a r cache).0
  token_answer-IsFresh token timeout r cache = λ h. absurd (false≢true h)
  token_answer-IsFresh token other_status r cache = λ h. absurd (false≢true h)
  token_answer-IsFresh token threw r cache = λ h. absurd (false≢true h)
  token_answer-IsFresh token (ok_object o) r cache =
      let u = read_user J same_letters tokens api_keys o r.user in
      if_IsFresh _ _ _ (check_token-IsFresh token u (record r { contacted = true }) cache)
        (λ h. absurd (false≢true h))

  cached_user-IsFresh :
      (token : Text) (r : AuthResult) (o : Option UserInfoAndPolicy) (cache : tokens.Store)
      → IsFresh (cached_user J same_letters tokens api_keys ask now token r o cache).0
  unfolding retrieve_token_information
  cached_user-IsFresh token r none cache = token_answer-IsFresh token (ask token) r cache
  cached_user-IsFresh token r (some u) cache = elim (Bool-cases (is_token_expired now u.webtoken)) [
    | inl old ↦ rw old (λ h. absurd (false≢true h))
    | inr young ↦ rw young (λ h. (young, refl))
  ]

  -- IsAuthorized, whatever is in the cache and whatever the security service answers: whoever it lets
  -- in has a token that is not expired, and Expired is not set.
  pub is_authorized-fresh :
      (token : Text) (r : AuthResult) (cache : tokens.Store)
      → let a = (is_authorized J same_letters tokens api_keys ask now token r cache).0 in
        a.allowed ≡ true → (is_token_expired now a.user.webtoken ≡ false) × (a.expired ≡ false)
  unfolding is_authorized
  is_authorized-fresh token r cache =
      cached_user-IsFresh token r (tokens.get token cache).0 (tokens.get token cache).1

module _ {Var Object : Type 0} (J : Json Var Object) (same_letters : Text → Text → Bool)
    (tokens : ExpireCache UserInfoAndPolicy) (api_keys : ExpireCache ApiKeyCacheEntry)
    (kept : (k : Text) (e : ApiKeyCacheEntry) (c : api_keys.Store)
      → (api_keys.get k (api_keys.update k e c)).0 ≡ some e) where
  key_confirmed :
      (ask : Text → SecurityAnswer Object) (now : ℕ) (key : Text) (r : AuthResult)
      (cache : api_keys.Store) (o : Object) (expires : ℕ)
      → (api_keys.get key cache).0 ≡ none
      → ask key ≡ ok_object o
      → has_field J same_letters tokens api_keys (codes "tokenInfo") o ≡ true
      → has_field J same_letters tokens api_keys (codes "userInfo") o ≡ true
      → has_field J same_letters tokens api_keys (codes "expiresOn") o ≡ true
      → (J.get (codes "expiresOn") o >>= J.to_number) ≡ some expires
      → (is_valid_api_key J same_letters tokens api_keys ask now key r cache).1
        ≡ api_keys.update key
            (record {
              user_info = read_user J same_letters tokens api_keys o r.user;
              expires_on = expires;
            })
            (api_keys.get key cache).1
  unfolding is_valid_api_key retrieve_api_key_information
  key_confirmed ask now key r cache o expires new told token_there user_there expiry_there when =
      rw (new, told, cached_key, key_answer, token_there, user_there, expiry_there, when) refl

  key_cached :
      (ask : Text → SecurityAnswer Object) (now : ℕ) (key : Text) (r : AuthResult)
      (cache : api_keys.Store) (e : ApiKeyCacheEntry)
      → (api_keys.get key cache).0 ≡ some e
      → ask key ≡ timeout
      → (is_valid_api_key J same_letters tokens api_keys ask now key r cache).0.allowed
        ≡ ltb e.expires_on now
  unfolding is_valid_api_key retrieve_api_key_information
  key_cached ask now key r cache e found silent = elim (Bool-cases (ltb e.expires_on now)) [
    | inl old ↦ rw (found, cached_key, old) refl
    | inr young ↦ rw (found, cached_key, young, silent) refl
  ]

  -- A key that is not in the cache and that the security service confirms until a given time, in a cache
  -- that finds what was just put in it; and a second check of it after the service has become
  -- unreachable: the key is let in exactly when it has expired.
  pub is_valid_api_key-expired :
      (ask ask' : Text → SecurityAnswer Object) (now now' : ℕ) (key : Text) (r r' : AuthResult)
      (cache : api_keys.Store) (o : Object) (expires : ℕ)
      → (api_keys.get key cache).0 ≡ none
      → ask key ≡ ok_object o
      → has_field J same_letters tokens api_keys (codes "tokenInfo") o ≡ true
      → has_field J same_letters tokens api_keys (codes "userInfo") o ≡ true
      → has_field J same_letters tokens api_keys (codes "expiresOn") o ≡ true
      → (J.get (codes "expiresOn") o >>= J.to_number) ≡ some expires
      → ask' key ≡ timeout
      → (is_valid_api_key J same_letters tokens api_keys ask' now' key r'
          (is_valid_api_key J same_letters tokens api_keys ask now key r cache).1).0.allowed
        ≡ ltb expires now'
  is_valid_api_key-expired ask ask' now now' key r r' cache o expires new told token_there
        user_there expiry_there when silent =
      let stored =
        key_confirmed ask now key r cache o expires new told token_there user_there expiry_there
          when in
      key_cached ask' now' key r' _ _ (ap (λ c. (api_keys.get key c).0) stored ∙ kept key _ _)
        silent

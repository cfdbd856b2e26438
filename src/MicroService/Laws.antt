-- ===== src/MicroService/Laws.antt =====
-- The services that BusMessageReceived keeps.
use mathlib.Core.Path.{subst}
use wlan_cloud_ucentralfms.Common.{
  ℕ, ◌≤◌, ◌≡◌, refl, sym, ◌∙◌, ◌≢◌, inl, inr, Bool, true, false, ◌&&◌, Option, none, some, List, [],
  ◌∷◌, arith, num_eq, if◌then◌else◌, if_true, if_false, num_eq_iff, Bool-cases, ◌>>=◌, All, Text,
  codes, text_eq, Map, All-insert, All-erase,
}
use wlan_cloud_ucentralfms.Poco.{Poco}
use wlan_cloud_ucentralfms.Json.{Json}
use wlan_cloud_ucentralfms.Service.{sub64}
use wlan_cloud_ucentralfms.SecurityObjects.Users.{UserInfoAndPolicy}
use wlan_cloud_ucentralfms.AuthClient.{ExpireCache, ApiKeyCacheEntry}
use wlan_cloud_ucentralfms.MicroService.{
  MicroServiceMeta, Infra, event_leave, event_remove_token, is_zombie, remove_zombies, has_key,
  read_text, service_info, has_all, change_services, handle_event, handle_message, swept,
  bus_message_received, receive_all,
}

abbrev pub IsRecent : ℕ → Text × MicroServiceMeta → Type 0
IsRecent now e = sub64 now e.1.last_update ≤ 120

-- An entry under its own private end point, with a type in lower case, that is not this service's.
abbrev pub IsListed : Poco → ℕ → Text × MicroServiceMeta → Type 0
IsListed poco own e =
    (e.0 ≡ e.1.private_end_point)
    × (e.1.id ≢ own)
    × (t : Text) × (e.1.service_type ≡ poco.to_lower t)

abbrev Each : {A : Type 0} → (A → Type 0) → Option A → Type 0
Each P none = Unit
Each P (some a) = P a

Each-bind :
    {A B : Type 0} (P : B → Type 0) (o : Option A) (f : A → Option B)
    → ((a : A) → o ≡ some a → Each P (f a))
    → Each P (o >>= f)
Each-bind P none f h = tt
Each-bind P (some a) f h = h a refl

Each-if :
    {A : Type 0} (P : A → Type 0) (b : Bool) (x y : Option A)
    → Each P x
    → Each P y
    → Each P (if b then x else y)
Each-if P true x y h k = h
Each-if P false x y h k = k

Each-unless :
    {A : Type 0} (P : A → Type 0) (b : Bool) (x y : Option A)
    → Each P x
    → (b ≡ false → Each P y)
    → Each P (if b then x else y)
Each-unless P true x y h k = h
Each-unless P false x y h k = k refl

some-injective : {A : Type 0} (a b : A) → some a ≡ some b → a ≡ b
some-injective a b e = cc

All-remove_zombies :
    (P : Text × MicroServiceMeta → Type 0) (now : ℕ) (m : Map MicroServiceMeta)
    → All P m
    → All P (remove_zombies now m)
unfolding remove_zombies
All-remove_zombies P now [] h = tt
All-remove_zombies P now ((k, s) ∷ m) h =
    let rest = All-remove_zombies P now m h.1 in
    elim (is_zombie now s)
      as (λ b. All P (if b then remove_zombies now m else (k, s) ∷ remove_zombies now m)) [
        | true ↦ rest
        | false ↦ (h.0, rest)
      ]

not_zombie :
    (now : ℕ) (s : MicroServiceMeta) → is_zombie now s ≡ false → sub64 now s.last_update ≤ 120
not_zombie now s z = ground arith

pub remove_zombies-IsRecent :
    (now : ℕ) (m : Map MicroServiceMeta) → All (IsRecent now) (remove_zombies now m)
unfolding remove_zombies
remove_zombies-IsRecent now [] = tt
remove_zombies-IsRecent now ((k, s) ∷ m) =
    let rest = remove_zombies-IsRecent now m in
    elim (Bool-cases (is_zombie now s)) [
      | inl z ↦
          rw (if_true (is_zombie now s) (remove_zombies now m) ((k, s) ∷ remove_zombies now m) z)
            rest
      | inr z ↦
          rw (if_false (is_zombie now s) (remove_zombies now m) ((k, s) ∷ remove_zombies now m) z)
            (not_zombie now s z, rest)
    ]

module _ (poco : Poco) {Var Object : Type 0} (J : Json Var Object)
    (tokens : ExpireCache UserInfoAndPolicy) (api_keys : ExpireCache ApiKeyCacheEntry)
    (own : ℕ) where
  abbrev AreListed : Map MicroServiceMeta → Type 0
  AreListed m = All (IsListed poco own) m

  service_info-IsListed :
      (now id : ℕ) (o : Object) (p : Text)
      → id ≢ own
      → read_text poco J (codes "privateEndPoint") o ≡ some p
      → Each (λ s. IsListed poco own (p, s)) (service_info poco J now id o)
  service_info-IsListed now id o p other e =
      let listed : MicroServiceMeta → Type 0 = λ s. IsListed poco own (p, s) in
      Each-bind listed (read_text poco J (codes "type") o) _ (λ t et.
        Each-bind listed (read_text poco J (codes "privateEndPoint") o) _ (λ p' ep.
          Each-bind listed (read_text poco J (codes "publicEndPoint") o) _ (λ q eq.
            Each-bind listed (read_text poco J (codes "key") o) _ (λ k ek.
              Each-bind listed (read_text poco J (codes "version") o) _
                (λ v ev. (some-injective p p' (sym e ∙ ep), other, t, refl))))))

  change_services-AreListed :
      (now id : ℕ) (event : Text) (o : Object) (m : Map MicroServiceMeta)
      → id ≢ own
      → AreListed m
      → Each AreListed (change_services poco J now id event o m)
  change_services-AreListed now id event o m other h =
      Each-bind AreListed (read_text poco J (codes "privateEndPoint") o) _ (λ p e.
        Each-if AreListed (text_eq event event_leave) _ _ (All-erase (IsListed poco own) p m h) (
          Each-bind AreListed (service_info poco J now id o) _ (λ s es.
            All-insert (IsListed poco own) p s m
              (subst (Each (λ v. IsListed poco own (p, v))) es
                (service_info-IsListed now id o p other e))
              h)))

  abbrev IsKept : Infra tokens.Store api_keys.Store → Type 0
  IsKept s = AreListed s.services

  handle_event-IsKept :
      (now id : ℕ) (event : Text) (o : Object) (s : Infra tokens.Store api_keys.Store)
      → id ≢ own
      → IsKept s
      → Each IsKept (handle_event poco J tokens api_keys now id event o s)
  handle_event-IsKept now id event o s other h =
      let changed = change_services-AreListed now id event o s.services other h in
      Each-if IsKept _ _ _
        (Each-if IsKept (has_all poco J o) _ _
          (Each-bind IsKept (change_services poco J now id event o s.services) _
            (λ m e. subst (Each AreListed) e changed))
          h)
        (Each-if IsKept (text_eq event event_remove_token) _ _
          (Each-if IsKept (has_key poco J (codes "token") o) _ _
            (Each-bind IsKept (read_text poco J (codes "token") o) _ (λ t e. h)) h)
          h)

  differs : (id : ℕ) → num_eq id own ≡ false → id ≢ own
  differs id e = ground (arith, num_eq_iff id own)

  handle_message-IsKept :
      (now : ℕ) (o : Object) (s : Infra tokens.Store api_keys.Store)
      → IsKept s
      → Each IsKept (handle_message poco J tokens api_keys own now o s)
  handle_message-IsKept now o s h =
      Each-if IsKept (has_key poco J (codes "id") o && has_key poco J (codes "event") o) _ (some s)
        (Each-bind IsKept (J.get (codes "id") o >>= J.to_number) _ (λ id i.
          Each-bind IsKept (read_text poco J (codes "event") o) _ (λ event e.
            Each-unless IsKept (num_eq id own) (some s) _ h
              (λ other. handle_event-IsKept now id event o s (differs id other) h))))
        h

  swept-IsKept :
      (later : ℕ) (s : Infra tokens.Store api_keys.Store)
      (r : Option (Infra tokens.Store api_keys.Store))
      → IsKept s
      → Each IsKept r
      → IsKept (swept poco J tokens api_keys later s r)
  swept-IsKept later s none h k = h
  swept-IsKept later s (some s') h k = All-remove_zombies (IsListed poco own) later s'.services k

  bus_message_received-IsKept :
      (now later : ℕ) (payload : Text) (s : Infra tokens.Store api_keys.Store)
      → IsKept s
      → IsKept (bus_message_received poco J tokens api_keys own now later payload s)
  unfolding bus_message_received
  bus_message_received-IsKept now later payload s h = swept-IsKept later s _ h (
      Each-bind IsKept (J.parse payload >>= J.to_object) _ (λ o e. handle_message-IsKept now o s h))

  -- Whatever arrives on the bus, malformed messages included: every service that is kept stands under
  -- its own private end point, has a type in lower case, and is not the service itself.
  pub receive_all-AreListed :
      (ms : List (ℕ × ℕ × Text)) (s : Infra tokens.Store api_keys.Store)
      → All (IsListed poco own) s.services
      → All (IsListed poco own) (receive_all poco J tokens api_keys own ms s).services
  unfolding receive_all
  receive_all-AreListed [] s h = h
  receive_all-AreListed ((now, later, payload) ∷ ms) s h =
      receive_all-AreListed ms (bus_message_received poco J tokens api_keys own now later payload s)
        (bus_message_received-IsKept now later payload s h)

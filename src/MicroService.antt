-- ===== src/MicroService.antt =====
-- src/framework/MicroService.cpp and OpenWifiTypes.h: the services of the system that a service knows
-- of, kept by the messages of the bus. The texts of JSON, Poco and the caches of AuthClient are
-- parameters; a message that throws is caught, and the log entries have no effect.
pub mod Laws
pub mod Messages
use wlan_cloud_ucentralfms.Common.{
  ℕ, Bool, true, false, ◌&&◌, ◌||◌, Option, none, some, List, [], ◌∷◌, ltb, num_eq, if◌then◌else◌,
  ◌>>=◌, keep, Text, codes, text_eq, Map, insert, erase,
}
use wlan_cloud_ucentralfms.Poco.{Poco}
use wlan_cloud_ucentralfms.Json.{Json}
use wlan_cloud_ucentralfms.Service.{sub64}
use wlan_cloud_ucentralfms.SecurityObjects.Users.{UserInfoAndPolicy}
use wlan_cloud_ucentralfms.AuthClient.{ExpireCache, ApiKeyCacheEntry}

-- Types::MicroServiceMeta
pub record MicroServiceMeta : Type 0 where
  pub id : ℕ
  pub service_type : Text
  pub private_end_point : Text
  pub public_end_point : Text
  pub access_key : Text
  pub version : Text
  pub last_update : ℕ

-- Services_ and the two caches of AuthClient.
pub record Infra (Tokens Keys : Type 0) : Type 0 where
  pub services : Map MicroServiceMeta
  pub tokens : Tokens
  pub api_keys : Keys

-- What a service says of itself: ID_, DAEMON_APP_NAME, MyPublicEndPoint_, MyPrivateEndPoint_, MyHash_
-- and Version_.
pub record Identity : Type 0 where
  pub id : ℕ
  pub app_name : Text
  pub public_end_point : Text
  pub private_end_point : Text
  pub hash : Text
  pub version : Text

abbrev pub event_join : Text
event_join = codes "join"

abbrev pub event_leave : Text
event_leave = codes "leave"

abbrev pub event_keep_alive : Text
event_keep_alive = codes "keep-alive"

abbrev pub event_remove_token : Text
event_remove_token = codes "remove-token"

-- now - LastUpdate wraps around at 64 bits.
abbrev pub is_zombie : ℕ → MicroServiceMeta → Bool
is_zombie now s = ltb 120 (sub64 now s.last_update)

-- The loop over Services_ at the end of BusMessageReceived.
unfoldable pub remove_zombies : ℕ → Map MicroServiceMeta → Map MicroServiceMeta
remove_zombies now [] = []
remove_zombies now ((k, s) ∷ m) =
    let rest = remove_zombies now m in if is_zombie now s then rest else (k, s) ∷ rest

abbrev pub all_services : Map MicroServiceMeta → List MicroServiceMeta
all_services [] = []
all_services ((k, s) ∷ m) = s ∷ all_services m

module _ (poco : Poco) where
  -- GetServices(Type)
  unfoldable pub get_services : Text → Map MicroServiceMeta → List MicroServiceMeta
  get_services t m = keep (λ s. text_eq s.service_type (poco.to_lower t)) (all_services m)

  module _ {Var Object : Type 0} (J : Json Var Object) where
    abbrev pub has_key : Text → Object → Bool
    has_key f o = elim (J.get f o) [ none ↦ false | some v ↦ true ]

    -- Object->get(f).toString()
    abbrev pub read_text : Text → Object → Option Text
    read_text f o = J.get f o >>= J.to_text

    -- The message of this service, before it is written as a text.
    unfoldable pub system_event : Text → Identity → Object
    system_event event me = J.set (codes "version") (J.of_text me.version) (
        J.set (codes "key") (J.of_text me.hash) (
          J.set (codes "privateEndPoint") (J.of_text me.private_end_point) (
            J.set (codes "publicEndPoint") (J.of_text me.public_end_point) (
              J.set (codes "type") (J.of_text (poco.to_lower me.app_name)) (
                J.set (codes "id") (J.of_number me.id)
                  (J.set (codes "event") (J.of_text event) J.empty))))))

    -- `stringify` is Poco::JSON::Stringifier::stringify.
    unfoldable pub make_system_event_message : (Object → Text) → Text → Identity → Text
    make_system_event_message stringify event me = stringify (system_event event me)

    abbrev pub service_info : ℕ → ℕ → Object → Option MicroServiceMeta
    service_info now id o = read_text (codes "type") o >>= λ t.
        read_text (codes "privateEndPoint") o >>= λ p. read_text (codes "publicEndPoint") o >>= λ q.
        read_text (codes "key") o >>= λ k. read_text (codes "version") o >>= λ v. some (record {
          id = id;
          service_type = poco.to_lower t;
          private_end_point = p;
          public_end_point = q;
          access_key = k;
          version = v;
          last_update = now;
        })

    abbrev pub has_all : Object → Bool
    has_all o =
        has_key (codes "type") o
        && has_key (codes "publicEndPoint") o
        && has_key (codes "privateEndPoint") o
        && has_key (codes "version") o
        && has_key (codes "key") o

    -- A join, a keep-alive or a leave; none is an exception, before which nothing is changed.
    abbrev pub change_services :
        ℕ → ℕ → Text → Object → Map MicroServiceMeta → Option (Map MicroServiceMeta)
    change_services now id event o m = read_text (codes "privateEndPoint") o >>= λ p.
        if text_eq event event_leave
        then some (erase p m)
        else service_info now id o >>= λ s. some (insert p s m)

    module _ (tokens : ExpireCache UserInfoAndPolicy)
        (api_keys : ExpireCache ApiKeyCacheEntry) where
      abbrev pub removed_cached_token :
          Text → Infra tokens.Store api_keys.Store → Infra tokens.Store api_keys.Store
      removed_cached_token t s = record s {
        tokens = tokens.remove t s.tokens;
        api_keys = api_keys.remove t s.api_keys;
      }

      abbrev pub handle_event :
          ℕ
          → ℕ
          → Text
          → Object
          → Infra tokens.Store api_keys.Store
          → Option (Infra tokens.Store api_keys.Store)
      handle_event now id event o s =
          if text_eq event event_join || text_eq event event_keep_alive || text_eq event event_leave
          then if has_all o
            then change_services now id event o s.services
              >>= (λ m. some (record s { services = m }))
            else some s
          else if text_eq event event_remove_token
          then if has_key (codes "token") o
            then read_text (codes "token") o >>= (λ t. some (removed_cached_token t s))
            else some s
          else some s

      -- The service's own messages are passed over.
      abbrev pub handle_message :
          ℕ
          → ℕ
          → Object
          → Infra tokens.Store api_keys.Store
          → Option (Infra tokens.Store api_keys.Store)
      handle_message own now o s =
          if has_key (codes "id") o && has_key (codes "event") o
          then (J.get (codes "id") o >>= J.to_number) >>= (λ id.
              read_text (codes "event") o
              >>= (λ event. if num_eq id own then some s else handle_event now id event o s))
          else some s

      abbrev pub swept :
          ℕ
          → Infra tokens.Store api_keys.Store
          → Option (Infra tokens.Store api_keys.Store)
          → Infra tokens.Store api_keys.Store
      swept later s none = s
      swept later s (some s') = record s' { services = remove_zombies later s'.services }

      -- `own` is ID_; `now` and `later` are what the clock says when a service is put down and when the
      -- zombies are removed.
      unfoldable pub bus_message_received :
          ℕ → ℕ → ℕ → Text → Infra tokens.Store api_keys.Store → Infra tokens.Store api_keys.Store
      bus_message_received own now later payload s =
          swept later s ((J.parse payload >>= J.to_object) >>= λ o. handle_message own now o s)

      -- A history of messages, each with its two times.
      unfoldable pub receive_all :
          ℕ
          → List (ℕ × ℕ × Text)
          → Infra tokens.Store api_keys.Store
          → Infra tokens.Store api_keys.Store
      receive_all own [] s = s
      receive_all own ((now, later, payload) ∷ ms) s =
          receive_all own ms (bus_message_received own now later payload s)

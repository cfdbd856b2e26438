-- ===== src/ServiceModel/Bus.antt =====
-- Two services on a concrete bus.
use wlan_cloud_ucentralfms.Common.{
  ℕ, ◌≡◌, refl, inl, List, [], ◌∷◌, arith, All, In, Text, codes, text_eq, Map,
}
use wlan_cloud_ucentralfms.PocoModel.{poco_model, to_lower_twice}
use wlan_cloud_ucentralfms.Json.Model.{json_model, json_model_laws}
use wlan_cloud_ucentralfms.SecurityObjects.Users.{UserInfoAndPolicy}
use wlan_cloud_ucentralfms.AuthClient.{ExpireCache, ApiKeyCacheEntry}
use wlan_cloud_ucentralfms.MicroService.{
  Infra, Identity, event_join, get_services, make_system_event_message, bus_message_received,
  receive_all,
}
use wlan_cloud_ucentralfms.MicroService.Laws.{IsRecent, IsListed, receive_all-AreListed}
use wlan_cloud_ucentralfms.MicroService.Messages.{
  met, bus_message_received-make_system_event_message,
}
use wlan_cloud_ucentralfms.KafkaManager.{new_consumer, consume}
use wlan_cloud_ucentralfms.KafkaManager.Watchers.{
  WatcherCall, replay, standing, consume-replay, registered, unregistered,
}
use wlan_cloud_ucentralfms.ServiceModel.Access.{map_cache}

abbrev gateway : Identity
gateway = record {
  id = 7;
  app_name = codes "OWGW";
  public_end_point = codes "https://gw:16002";
  private_end_point = codes "https://gw:17002";
  hash = codes "abc";
  version = codes "3.1";
}

abbrev nothing_known : Infra (Map UserInfoAndPolicy) (Map ApiKeyCacheEntry)
nothing_known = record { services = []; tokens = []; api_keys = [] }

abbrev greeting : Text
greeting = make_system_event_message poco_model json_model json_model.of_object event_join gateway

abbrev tokens : ExpireCache UserInfoAndPolicy
tokens = map_cache UserInfoAndPolicy

abbrev keys : ExpireCache ApiKeyCacheEntry
keys = map_cache ApiKeyCacheEntry

receive_all-AreListed_example :
    All
      (IsListed poco_model 9)
      (receive_all poco_model json_model tokens keys 9
        ((1000, 1000, greeting) ∷ (1001, 1001, codes "x") ∷ [])
        nothing_known).services
receive_all-AreListed_example =
    receive_all-AreListed poco_model json_model tokens keys 9
      ((1000, 1000, greeting) ∷ (1001, 1001, codes "x") ∷ []) nothing_known tt

bus_message_received-make_system_event_message_example :
    let kept =
      (bus_message_received poco_model json_model tokens keys 9 1000 1001 greeting
        nothing_known).services in
    In (met poco_model gateway 1000) (get_services poco_model (codes "OWGW") kept)
    × All (IsRecent 1001) kept
bus_message_received-make_system_event_message_example =
    bus_message_received-make_system_event_message poco_model json_model json_model_laws tokens keys
      event_join gateway (inl refl) 1000 json_model.of_object (λ o. refl) to_lower_twice 9 1001
      nothing_known (λ e. absurd (omega (arith, e))) (omega arith) (omega arith) (omega arith)
      (omega arith)

abbrev calls : List (WatcherCall ℕ)
calls =
    registered (codes "a") 10
    ∷ registered (codes "b") 20
    ∷ registered (codes "a") 30
    ∷ unregistered (codes "a") 1
    ∷ []

-- A callback writes its own number down.
consume-replay_example :
    consume (λ f key payload s. f ∷ s) (codes "a") [] [] (replay calls new_consumer) [] ≡ 30 ∷ []
unfolding standing text_eq
consume-replay_example =
    consume-replay (λ f key payload s. f ∷ s) calls (codes "a") [] [] [] (omega arith)

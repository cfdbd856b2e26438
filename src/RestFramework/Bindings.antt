-- ===== src/RestFramework/Bindings.antt =====
-- RESTAPIHandler::ParseBindings, RESTAPI_Router and the routes of the service
-- (src/framework/RESTAPI_Handler.h and src/RESTAPI/RESTAPI_Routers.cpp).
pub mod Laws
use wlan_cloud_ucentralfms.Common.{
  Bool, true, false, Option, none, some, List, [], ◌∷◌, ◌++◌, num_eq, if◌then◌else◌, num_Eq, ◌==◌,
  length, take, drop, Text, codes, text_Eq, Map, lookup, insert,
}
use wlan_cloud_ucentralfms.Poco.{Poco}
use wlan_cloud_ucentralfms.Service.{sub64}

-- ParamItems[i][0] == '{'; the first character of an empty string is 0.
unfoldable pub opens_brace : Text → Bool
opens_brace [] = false
opens_brace (c ∷ s) = num_eq c b'{'

-- ParamItems[i].substr(1, size - 2), where size - 2 wraps around at 64 bits.
unfoldable pub param_name : Text → Text
param_name s = take (sub64 (length s) 2) (drop 1 s)

module _ (poco : Poco) where
  -- The loop over the items of a path and of an end point with as many items.
  unfoldable pub match_items : List Text → List Text → Map Text → Bool × Map Text
  match_items [] qs b = (true, b)
  match_items (p ∷ ps) [] b = (true, b)
  match_items (p ∷ ps) (q ∷ qs) b =
      let same = match_items ps qs b in
      let bound = match_items ps qs (insert (poco.to_lower (param_name q)) p b) in
      if p == q then same else if opens_brace q then bound else (false, b)

  abbrev pub items : Text → List Text
  items s = poco.tokenize s (codes "/")

  -- The bindings that an end point left before it failed to match stay for the next one.
  unfoldable pub parse_from : List Text → List Text → Map Text → Bool × Map Text
  unfolding match_items
  parse_from ps [] b = (false, b)
  parse_from ps (e ∷ es) b =
      let qs = items e in
      let (matched, b') = match_items ps qs b in
      let tried = parse_from ps es b' in
      let skipped = parse_from ps es b in
      if num_eq (length ps) (length qs) then (if matched then (true, b') else tried) else skipped

  unfoldable pub parse_bindings : Text → List Text → Bool × Map Text
  unfolding parse_from
  parse_bindings path end_points = parse_from (items path) end_points []

  -- RESTAPI_Router: the first handler with an end point that matches, with what it is bound to; none
  -- for RESTAPI_UnknownRequestHandler.
  unfoldable pub route : {H : Type 0} → Text → List (H × List Text) → Option (H × Map Text)
  unfolding parse_bindings
  route path [] = none
  route path ((h, end_points) ∷ hs) =
      let (matched, b) = parse_bindings path end_points in
      let rest = route path hs in if matched then some (h, b) else rest

-- RESTAPIHandler::GetBinding
unfoldable pub get_binding : Poco → Text → Text → Map Text → Text
get_binding poco name default b = elim (lookup (poco.to_lower name) b) [
  | none ↦ default
  | some v ↦ v
]

pub data HandlerClass : Type 0 where
  firmwares system_configuration firmware system_command firmware_age connected_devices
        connected_device history device_report device_information web_socket_server :
      HandlerClass

-- The handlers of RESTAPI_IntRouter with their PathName().
abbrev pub int_routes : List (HandlerClass × List Text)
int_routes =
    (firmwares, codes "/api/v1/firmwares" ∷ [])
    ∷ (system_configuration, codes "/api/v1/systemConfiguration" ∷ [])
    ∷ (firmware, codes "/api/v1/firmware/{id}" ∷ [])
    ∷ (system_command, codes "/api/v1/system" ∷ [])
    ∷ (firmware_age, codes "/api/v1/firmwareAge" ∷ [])
    ∷ (connected_devices, codes "/api/v1/connectedDevices" ∷ [])
    ∷ (connected_device, codes "/api/v1/connectedDevice/{serialNumber}" ∷ [])
    ∷ (history, codes "/api/v1/revisionHistory/{serialNumber}" ∷ [])
    ∷ (device_report, codes "/api/v1/deviceReport" ∷ [])
    ∷ (device_information, codes "/api/v1/deviceInformation/{serialNumber}" ∷ [])
    ∷ []

-- RESTAPI_ExtRouter has one more.
abbrev pub ext_routes : List (HandlerClass × List Text)
ext_routes = int_routes ++ (web_socket_server, codes "/api/v1/ws" ∷ []) ∷ []

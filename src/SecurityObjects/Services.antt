-- ===== src/SecurityObjects/Services.antt =====
-- What the security service says of the other services (RESTAPI_SecurityObjects.h and .cpp).
use wlan_cloud_ucentralfms.Common.{ℕ, List, [], ◌∷◌, Text, codes}
use wlan_cloud_ucentralfms.Json.{Json}
use wlan_cloud_ucentralfms.Json.Codecs.{text_codec, number_codec}
use wlan_cloud_ucentralfms.Json.Struct.{JsonField, field, vector_codec}

-- SecurityObjects::InternalServiceInfo
pub record InternalServiceInfo : Type 0 where
  pub private_uri : Text
  pub public_uri : Text
  pub token : Text

-- SecurityObjects::InternalSystemServices
pub record InternalSystemServices : Type 0 where
  pub key : Text
  pub version : Text
  pub services : List InternalServiceInfo

-- SecurityObjects::SystemEndpoint
pub record SystemEndpoint : Type 0 where
  pub type : Text
  pub id : ℕ
  pub vendor : Text
  pub uri : Text
  pub authentication_type : Text

-- SecurityObjects::SystemEndpointList
pub record SystemEndpointList : Type 0 where
  pub endpoints : List SystemEndpoint

-- SecurityObjects::ExtraSystemConfiguration
pub record ExtraSystemConfiguration : Type 0 where
  pub parameter_name : Text
  pub parameter_value : Text

abbrev pub fresh_internal_service_info : InternalServiceInfo
fresh_internal_service_info = record { private_uri = []; public_uri = []; token = [] }

abbrev pub fresh_internal_system_services : InternalSystemServices
fresh_internal_system_services = record { key = []; version = []; services = [] }

abbrev pub fresh_system_endpoint : SystemEndpoint
fresh_system_endpoint = record {
  type = [];
  id = 0;
  vendor = codes "OpenWiFi";
  uri = [];
  authentication_type = codes "internal_v1";
}

abbrev pub fresh_system_endpoint_list : SystemEndpointList
fresh_system_endpoint_list = record { endpoints = [] }

abbrev pub fresh_extra_system_configuration : ExtraSystemConfiguration
fresh_extra_system_configuration = record { parameter_name = []; parameter_value = [] }

module _ {Var Object : Type 0} (J : Json Var Object) where
  unfoldable pub internal_service_info_fields : List (JsonField Var InternalServiceInfo)
  internal_service_info_fields =
      field "privateURI" (text_codec J) (λ r. r.private_uri) (λ a r. record r { private_uri = a })
      ∷ field "publicURI" (text_codec J) (λ r. r.public_uri) (λ a r. record r { public_uri = a })
      ∷ field "token" (text_codec J) (λ r. r.token) (λ a r. record r { token = a })
      ∷ []

  unfoldable pub internal_system_services_fields : List (JsonField Var InternalSystemServices)
  internal_system_services_fields =
      field "key" (text_codec J) (λ r. r.key) (λ a r. record r { key = a })
      ∷ field "version" (text_codec J) (λ r. r.version) (λ a r. record r { version = a })
      ∷ field "services" (vector_codec J internal_service_info_fields fresh_internal_service_info)
          (λ r. r.services) (λ a r. record r { services = a })
      ∷ []

  unfoldable pub system_endpoint_fields : List (JsonField Var SystemEndpoint)
  system_endpoint_fields =
      field "type" (text_codec J) (λ r. r.type) (λ a r. record r { type = a })
      ∷ field "id" (number_codec J) (λ r. r.id) (λ a r. record r { id = a })
      ∷ field "vendor" (text_codec J) (λ r. r.vendor) (λ a r. record r { vendor = a })
      ∷ field "uri" (text_codec J) (λ r. r.uri) (λ a r. record r { uri = a })
      ∷ field "authenticationType" (text_codec J) (λ r. r.authentication_type)
          (λ a r. record r { authentication_type = a })
      ∷ []

  unfoldable pub system_endpoint_list_fields : List (JsonField Var SystemEndpointList)
  system_endpoint_list_fields =
      field "endpoints" (vector_codec J system_endpoint_fields fresh_system_endpoint)
        (λ r. r.endpoints) (λ a r. record r { endpoints = a })
      ∷ []

  unfoldable pub extra_system_configuration_fields : List (JsonField Var ExtraSystemConfiguration)
  extra_system_configuration_fields =
      field "parameterName" (text_codec J) (λ r. r.parameter_name)
        (λ a r. record r { parameter_name = a })
      ∷ field "parameterValue" (text_codec J) (λ r. r.parameter_value)
          (λ a r. record r { parameter_value = a })
      ∷ []

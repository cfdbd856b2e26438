-- ===== src/SecurityObjects/ApiKeys.antt =====
-- API keys (RESTAPI_SecurityObjects.h and .cpp). `created` is what a new ApiKeyEntry, which does not
-- initialise it, holds there.
use wlan_cloud_ucentralfms.Common.{ℕ, List, [], ◌∷◌, Text}
use wlan_cloud_ucentralfms.Json.{Json}
use wlan_cloud_ucentralfms.Json.Codecs.{text_codec, number_codec}
use wlan_cloud_ucentralfms.Json.Struct.{JsonField, field, object_codec, vector_codec}
use wlan_cloud_ucentralfms.SecurityObjects.Access.{
  ApiKeyAccessRightList, fresh_api_key_access_right_list, api_key_access_right_list_fields,
}

-- SecurityObjects::ApiKeyEntry
pub record ApiKeyEntry : Type 0 where
  pub id : Text
  pub user_uuid : Text
  pub name : Text
  pub description : Text
  pub api_key : Text
  pub salt : Text
  pub created : ℕ
  pub expires_on : ℕ
  pub rights : ApiKeyAccessRightList
  pub last_use : ℕ

-- SecurityObjects::ApiKeyEntryList
pub record ApiKeyEntryList : Type 0 where
  pub api_keys : List ApiKeyEntry

abbrev pub fresh_api_key_entry : ℕ → ApiKeyEntry
fresh_api_key_entry created = record {
  id = [];
  user_uuid = [];
  name = [];
  description = [];
  api_key = [];
  salt = [];
  created = created;
  expires_on = 0;
  rights = fresh_api_key_access_right_list;
  last_use = 0;
}

abbrev pub fresh_api_key_entry_list : ApiKeyEntryList
fresh_api_key_entry_list = record { api_keys = [] }

module _ {Var Object : Type 0} (J : Json Var Object) (created : ℕ) where
  unfoldable pub api_key_entry_fields : List (JsonField Var ApiKeyEntry)
  api_key_entry_fields =
      field "id" (text_codec J) (λ r. r.id) (λ a r. record r { id = a })
      ∷ field "userUuid" (text_codec J) (λ r. r.user_uuid) (λ a r. record r { user_uuid = a })
      ∷ field "name" (text_codec J) (λ r. r.name) (λ a r. record r { name = a })
      ∷ field "apiKey" (text_codec J) (λ r. r.api_key) (λ a r. record r { api_key = a })
      ∷ field "salt" (text_codec J) (λ r. r.salt) (λ a r. record r { salt = a })
      ∷ field "description" (text_codec J) (λ r. r.description)
          (λ a r. record r { description = a })
      ∷ field "expiresOn" (number_codec J) (λ r. r.expires_on) (λ a r. record r { expires_on = a })
      ∷ field "rights" (object_codec J (api_key_access_right_list_fields J)) (λ r. r.rights)
          (λ a r. record r { rights = a })
      ∷ field "lastUse" (number_codec J) (λ r. r.last_use) (λ a r. record r { last_use = a })
      ∷ []

  unfoldable pub api_key_entry_list_fields : List (JsonField Var ApiKeyEntryList)
  api_key_entry_list_fields =
      field "apiKeys" (vector_codec J api_key_entry_fields (fresh_api_key_entry created))
        (λ r. r.api_keys) (λ a r. record r { api_keys = a })
      ∷ []

-- ===== src/SecurityObjects/Access.antt =====
-- Web tokens and the rights that they and API keys give (RESTAPI_SecurityObjects.h and .cpp).
use wlan_cloud_ucentralfms.Common.{ℕ, Bool, true, List, [], ◌∷◌, Text}
use wlan_cloud_ucentralfms.Json.{Json}
use wlan_cloud_ucentralfms.Json.Codecs.{text_codec, number_codec, bool_codec}
use wlan_cloud_ucentralfms.Json.Struct.{JsonField, field, vector_codec}

-- SecurityObjects::AclTemplate
pub record AclTemplate : Type 0 where
  pub read : Bool
  pub read_write : Bool
  pub read_write_create : Bool
  pub delete : Bool
  pub portal_login : Bool

-- SecurityObjects::Token
pub record Token : Type 0 where
  pub token : Text
  pub refresh_token : Text
  pub token_type : Text
  pub user_name : Text
  pub created : ℕ
  pub expires : ℕ
  pub idle_timeout : ℕ
  pub revocation_date : ℕ
  pub last_refresh : ℕ

-- SecurityObjects::LoginRecordInfo
pub record LoginRecordInfo : Type 0 where
  pub session_id : Text
  pub user_id : Text
  pub email : Text
  pub login : ℕ
  pub logout : ℕ

-- SecurityObjects::ApiKeyAccessRight
pub record ApiKeyAccessRight : Type 0 where
  pub service : Text
  pub access : Text

-- SecurityObjects::ApiKeyAccessRightList
pub record ApiKeyAccessRightList : Type 0 where
  pub acls : List ApiKeyAccessRight

abbrev pub fresh_acl_template : AclTemplate
fresh_acl_template = record {
  read = true;
  read_write = true;
  read_write_create = true;
  delete = true;
  portal_login = true;
}

abbrev pub fresh_token : Token
fresh_token = record {
  token = [];
  refresh_token = [];
  token_type = [];
  user_name = [];
  created = 0;
  expires = 0;
  idle_timeout = 0;
  revocation_date = 0;
  last_refresh = 0;
}

abbrev pub fresh_login_record_info : LoginRecordInfo
fresh_login_record_info = record {
  session_id = [];
  user_id = [];
  email = [];
  login = 0;
  logout = 0;
}

abbrev pub fresh_api_key_access_right : ApiKeyAccessRight
fresh_api_key_access_right = record { service = []; access = [] }

abbrev pub fresh_api_key_access_right_list : ApiKeyAccessRightList
fresh_api_key_access_right_list = record { acls = [] }

module _ {Var Object : Type 0} (J : Json Var Object) where
  unfoldable pub acl_template_fields : List (JsonField Var AclTemplate)
  acl_template_fields =
      field "Read" (bool_codec J) (λ r. r.read) (λ a r. record r { read = a })
      ∷ field "ReadWrite" (bool_codec J) (λ r. r.read_write) (λ a r. record r { read_write = a })
      ∷ field "ReadWriteCreate" (bool_codec J) (λ r. r.read_write_create)
          (λ a r. record r { read_write_create = a })
      ∷ field "Delete" (bool_codec J) (λ r. r.delete) (λ a r. record r { delete = a })
      ∷ field "PortalLogin" (bool_codec J) (λ r. r.portal_login)
          (λ a r. record r { portal_login = a })
      ∷ []

  unfoldable pub token_fields : List (JsonField Var Token)
  token_fields =
      field "token" (text_codec J) (λ r. r.token) (λ a r. record r { token = a })
      ∷ field "refreshToken" (text_codec J) (λ r. r.refresh_token)
          (λ a r. record r { refresh_token = a })
      ∷ field "tokenType" (text_codec J) (λ r. r.token_type) (λ a r. record r { token_type = a })
      ∷ field "userName" (text_codec J) (λ r. r.user_name) (λ a r. record r { user_name = a })
      ∷ field "created" (number_codec J) (λ r. r.created) (λ a r. record r { created = a })
      ∷ field "expires" (number_codec J) (λ r. r.expires) (λ a r. record r { expires = a })
      ∷ field "idleTimeout" (number_codec J) (λ r. r.idle_timeout)
          (λ a r. record r { idle_timeout = a })
      ∷ field "revocationDate" (number_codec J) (λ r. r.revocation_date)
          (λ a r. record r { revocation_date = a })
      ∷ field "lastRefresh" (number_codec J) (λ r. r.last_refresh)
          (λ a r. record r { last_refresh = a })
      ∷ []

  unfoldable pub login_record_info_written : List (JsonField Var LoginRecordInfo)
  login_record_info_written =
      field "sessionId" (text_codec J) (λ r. r.session_id) (λ a r. record r { session_id = a })
      ∷ field "userId" (text_codec J) (λ r. r.user_id) (λ a r. record r { user_id = a })
      ∷ field "email" (text_codec J) (λ r. r.email) (λ a r. record r { email = a })
      ∷ field "login" (number_codec J) (λ r. r.login) (λ a r. record r { login = a })
      ∷ field "logout" (number_codec J) (λ r. r.logout) (λ a r. record r { logout = a })
      ∷ []

  unfoldable pub api_key_access_right_fields : List (JsonField Var ApiKeyAccessRight)
  api_key_access_right_fields =
      field "service" (text_codec J) (λ r. r.service) (λ a r. record r { service = a })
      ∷ field "access" (text_codec J) (λ r. r.access) (λ a r. record r { access = a })
      ∷ []

  unfoldable pub api_key_access_right_list_fields : List (JsonField Var ApiKeyAccessRightList)
  api_key_access_right_list_fields =
      field "acls" (vector_codec J api_key_access_right_fields fresh_api_key_access_right)
        (λ r. r.acls) (λ a r. record r { acls = a })
      ∷ []

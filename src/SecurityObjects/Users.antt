-- ===== src/SecurityObjects/Users.antt =====
-- Users, their roles and the web tokens they hold (RESTAPI_SecurityObjects.h and .cpp), and the notes
-- that a user adds.
use wlan_cloud_ucentralfms.Common.{ℕ, Bool, false, List, [], ◌∷◌, ◌++◌, if◌then◌else◌, Text, codes}
use wlan_cloud_ucentralfms.Json.{Json}
use wlan_cloud_ucentralfms.Json.Codecs.{
  Codec, text_codec, number_codec, bool_codec, named_codec, text_list_codec,
}
use wlan_cloud_ucentralfms.Json.Struct.{JsonField, field, of_struct, object_codec, vector_codec}
use wlan_cloud_ucentralfms.SecurityObjects.{
  NoteInfo, UserLoginLoginExtensions, fresh_note_info, note_info_fields,
  user_login_login_extensions_fields,
}
use wlan_cloud_ucentralfms.SecurityObjects.Access.{
  AclTemplate, fresh_acl_template, acl_template_fields,
}

-- enum USER_ROLE
pub data UserRole : Type 0 where
  unknown root admin subscriber csr system installer noc accounting partner : UserRole

unfoldable pub user_type_to_string : UserRole → Text
user_type_to_string root = codes "root"
user_type_to_string admin = codes "admin"
user_type_to_string subscriber = codes "subscriber"
user_type_to_string partner = codes "partner"
user_type_to_string csr = codes "csr"
user_type_to_string system = codes "system"
user_type_to_string installer = codes "installer"
user_type_to_string noc = codes "noc"
user_type_to_string accounting = codes "accounting"
user_type_to_string unknown = codes "unknown"

-- `same_letters` is Poco::icompare(a, b) == 0.
unfoldable pub user_type_from_string : (Text → Text → Bool) → Text → UserRole
user_type_from_string same_letters u =
    if same_letters u (codes "root")
    then root
    else if same_letters u (codes "admin")
    then admin
    else if same_letters u (codes "subscriber")
    then subscriber
    else if same_letters u (codes "partner")
    then partner
    else if same_letters u (codes "csr")
    then csr
    else if same_letters u (codes "system")
    then system
    else if same_letters u (codes "installer")
    then installer
    else if same_letters u (codes "noc")
    then noc
    else if same_letters u (codes "accounting")
    then accounting
    else unknown

-- SecurityObjects::WebToken
pub record WebToken : Type 0 where
  pub access_token : Text
  pub refresh_token : Text
  pub id_token : Text
  pub token_type : Text
  pub username : Text
  pub user_must_change_password : Bool
  pub error_code : ℕ
  pub expires_in : ℕ
  pub idle_timeout : ℕ
  pub acl_template : AclTemplate
  pub created : ℕ
  pub last_refresh : ℕ

-- SecurityObjects::UserInfo
pub record UserInfo : Type 0 where
  pub id : Text
  pub name : Text
  pub description : Text
  pub avatar : Text
  pub email : Text
  pub validated : Bool
  pub validation_email : Text
  pub validation_date : ℕ
  pub creation_date : ℕ
  pub validation_uri : Text
  pub change_password : Bool
  pub last_login : ℕ
  pub current_login_uri : Text
  pub last_password_change : ℕ
  pub last_email_check : ℕ
  pub waiting_for_email_check : Bool
  pub locale : Text
  pub notes : List NoteInfo
  pub location : Text
  pub owner : Text
  pub suspended : Bool
  pub black_listed : Bool
  pub user_role : UserRole
  pub user_type_proprietary_info : UserLoginLoginExtensions
  pub security_policy : Text
  pub security_policy_change : ℕ
  pub current_password : Text
  pub last_passwords : List Text
  pub oauth_type : Text
  pub oauth_user_info : Text
  pub modified : ℕ
  pub signing_up : Text

-- SecurityObjects::UserInfoAndPolicy
pub record UserInfoAndPolicy : Type 0 where
  pub webtoken : WebToken
  pub userinfo : UserInfo

abbrev pub fresh_web_token : WebToken
fresh_web_token = record {
  access_token = [];
  refresh_token = [];
  id_token = [];
  token_type = [];
  username = [];
  user_must_change_password = false;
  error_code = 0;
  expires_in = 0;
  idle_timeout = 0;
  acl_template = fresh_acl_template;
  created = 0;
  last_refresh = 0;
}

module _ {Var Object : Type 0} (J : Json Var Object) (same_letters : Text → Text → Bool) where
  unfoldable pub role_codec : Codec Var UserRole
  role_codec = named_codec J user_type_to_string (user_type_from_string same_letters)

  unfoldable pub web_token_written : List (JsonField Var WebToken)
  web_token_written =
      field "access_token" (text_codec J) (λ r. r.access_token)
        (λ a r. record r { access_token = a })
      ∷ field "refresh_token" (text_codec J) (λ r. r.refresh_token)
          (λ a r. record r { refresh_token = a })
      ∷ field "token_type" (text_codec J) (λ r. r.token_type) (λ a r. record r { token_type = a })
      ∷ field "expires_in" (number_codec J) (λ r. r.expires_in) (λ a r. record r { expires_in = a })
      ∷ field "idle_timeout" (number_codec J) (λ r. r.idle_timeout)
          (λ a r. record r { idle_timeout = a })
      ∷ field "created" (number_codec J) (λ r. r.created) (λ a r. record r { created = a })
      ∷ field "username" (text_codec J) (λ r. r.username) (λ a r. record r { username = a })
      ∷ field "userMustChangePassword" (bool_codec J) (λ r. r.user_must_change_password)
          (λ a r. record r { user_must_change_password = a })
      ∷ field "errorCode" (number_codec J) (λ r. r.error_code) (λ a r. record r { error_code = a })
      ∷ field "aclTemplate" (object_codec J (acl_template_fields J)) (λ r. r.acl_template)
          (λ a r. record r { acl_template = a })
      ∷ field "errorCode" (number_codec J) (λ r. r.error_code) (λ a r. record r { error_code = a })
      ∷ field "lastRefresh" (number_codec J) (λ r. r.last_refresh)
          (λ a r. record r { last_refresh = a })
      ∷ []

  unfoldable pub web_token_read : List (JsonField Var WebToken)
  web_token_read =
      field "aclTemplate" (object_codec J (acl_template_fields J)) (λ r. r.acl_template)
        (λ a r. record r { acl_template = a })
      ∷ field "access_token" (text_codec J) (λ r. r.access_token)
          (λ a r. record r { access_token = a })
      ∷ field "refresh_token" (text_codec J) (λ r. r.refresh_token)
          (λ a r. record r { refresh_token = a })
      ∷ field "token_type" (text_codec J) (λ r. r.token_type) (λ a r. record r { token_type = a })
      ∷ field "expires_in" (number_codec J) (λ r. r.expires_in) (λ a r. record r { expires_in = a })
      ∷ field "idle_timeout" (number_codec J) (λ r. r.idle_timeout)
          (λ a r. record r { idle_timeout = a })
      ∷ field "created" (number_codec J) (λ r. r.created) (λ a r. record r { created = a })
      ∷ field "username" (text_codec J) (λ r. r.username) (λ a r. record r { username = a })
      ∷ field "userMustChangePassword" (bool_codec J) (λ r. r.user_must_change_password)
          (λ a r. record r { user_must_change_password = a })
      ∷ field "lastRefresh" (number_codec J) (λ r. r.last_refresh)
          (λ a r. record r { last_refresh = a })
      ∷ []

  unfoldable pub user_info_written : List (JsonField Var UserInfo)
  user_info_written =
      field "id" (text_codec J) (λ r. r.id) (λ a r. record r { id = a })
      ∷ field "name" (text_codec J) (λ r. r.name) (λ a r. record r { name = a })
      ∷ field "description" (text_codec J) (λ r. r.description)
          (λ a r. record r { description = a })
      ∷ field "avatar" (text_codec J) (λ r. r.avatar) (λ a r. record r { avatar = a })
      ∷ field "email" (text_codec J) (λ r. r.email) (λ a r. record r { email = a })
      ∷ field "validated" (bool_codec J) (λ r. r.validated) (λ a r. record r { validated = a })
      ∷ field "validationEmail" (text_codec J) (λ r. r.validation_email)
          (λ a r. record r { validation_email = a })
      ∷ field "validationDate" (number_codec J) (λ r. r.validation_date)
          (λ a r. record r { validation_date = a })
      ∷ field "creationDate" (number_codec J) (λ r. r.creation_date)
          (λ a r. record r { creation_date = a })
      ∷ field "validationURI" (text_codec J) (λ r. r.validation_uri)
          (λ a r. record r { validation_uri = a })
      ∷ field "changePassword" (bool_codec J) (λ r. r.change_password)
          (λ a r. record r { change_password = a })
      ∷ field "lastLogin" (number_codec J) (λ r. r.last_login) (λ a r. record r { last_login = a })
      ∷ field "currentLoginURI" (text_codec J) (λ r. r.current_login_uri)
          (λ a r. record r { current_login_uri = a })
      ∷ field "lastPasswordChange" (number_codec J) (λ r. r.last_password_change)
          (λ a r. record r { last_password_change = a })
      ∷ field "lastEmailCheck" (number_codec J) (λ r. r.last_email_check)
          (λ a r. record r { last_email_check = a })
      ∷ field "waitingForEmailCheck" (bool_codec J) (λ r. r.waiting_for_email_check)
          (λ a r. record r { waiting_for_email_check = a })
      ∷ field "locale" (text_codec J) (λ r. r.locale) (λ a r. record r { locale = a })
      ∷ field "notes" (vector_codec J (note_info_fields J) fresh_note_info) (λ r. r.notes)
          (λ a r. record r { notes = a })
      ∷ field "location" (text_codec J) (λ r. r.location) (λ a r. record r { location = a })
      ∷ field "owner" (text_codec J) (λ r. r.owner) (λ a r. record r { owner = a })
      ∷ field "suspended" (bool_codec J) (λ r. r.suspended) (λ a r. record r { suspended = a })
      ∷ field "blackListed" (bool_codec J) (λ r. r.black_listed)
          (λ a r. record r { black_listed = a })
      ∷ field "userRole" (role_codec) (λ r. r.user_role) (λ a r. record r { user_role = a })
      ∷ field "userTypeProprietaryInfo" (object_codec J ((user_login_login_extensions_fields J)))
          (λ r. r.user_type_proprietary_info) (λ a r. record r { user_type_proprietary_info = a })
      ∷ field "securityPolicy" (text_codec J) (λ r. r.security_policy)
          (λ a r. record r { security_policy = a })
      ∷ field "securityPolicyChange" (number_codec J) (λ r. r.security_policy_change)
          (λ a r. record r { security_policy_change = a })
      ∷ field "currentPassword" (text_codec J) (λ r. r.current_password)
          (λ a r. record r { current_password = a })
      ∷ field "lastPasswords" (text_list_codec J) (λ r. r.last_passwords)
          (λ a r. record r { last_passwords = a })
      ∷ field "oauthType" (text_codec J) (λ r. r.oauth_type) (λ a r. record r { oauth_type = a })
      ∷ field "oauthUserInfo" (text_codec J) (λ r. r.oauth_user_info)
          (λ a r. record r { oauth_user_info = a })
      ∷ field "modified" (number_codec J) (λ r. r.modified) (λ a r. record r { modified = a })
      ∷ field "signingUp" (text_codec J) (λ r. r.signing_up) (λ a r. record r { signing_up = a })
      ∷ []

  unfoldable pub user_info_read : List (JsonField Var UserInfo)
  user_info_read =
      field "id" (text_codec J) (λ r. r.id) (λ a r. record r { id = a })
      ∷ field "name" (text_codec J) (λ r. r.name) (λ a r. record r { name = a })
      ∷ field "description" (text_codec J) (λ r. r.description)
          (λ a r. record r { description = a })
      ∷ field "avatar" (text_codec J) (λ r. r.avatar) (λ a r. record r { avatar = a })
      ∷ field "email" (text_codec J) (λ r. r.email) (λ a r. record r { email = a })
      ∷ field "validationEmail" (text_codec J) (λ r. r.validation_email)
          (λ a r. record r { validation_email = a })
      ∷ field "validationURI" (text_codec J) (λ r. r.validation_uri)
          (λ a r. record r { validation_uri = a })
      ∷ field "currentLoginURI" (text_codec J) (λ r. r.current_login_uri)
          (λ a r. record r { current_login_uri = a })
      ∷ field "locale" (text_codec J) (λ r. r.locale) (λ a r. record r { locale = a })
      ∷ field "notes" (vector_codec J (note_info_fields J) fresh_note_info) (λ r. r.notes)
          (λ a r. record r { notes = a })
      ∷ field "location" (text_codec J) (λ r. r.location) (λ a r. record r { location = a })
      ∷ field "owner" (text_codec J) (λ r. r.owner) (λ a r. record r { owner = a })
      ∷ field "userRole" (role_codec) (λ r. r.user_role) (λ a r. record r { user_role = a })
      ∷ field "securityPolicy" (text_codec J) (λ r. r.security_policy)
          (λ a r. record r { security_policy = a })
      ∷ field "userTypeProprietaryInfo" (object_codec J ((user_login_login_extensions_fields J)))
          (λ r. r.user_type_proprietary_info) (λ a r. record r { user_type_proprietary_info = a })
      ∷ field "validationDate" (number_codec J) (λ r. r.validation_date)
          (λ a r. record r { validation_date = a })
      ∷ field "creationDate" (number_codec J) (λ r. r.creation_date)
          (λ a r. record r { creation_date = a })
      ∷ field "lastLogin" (number_codec J) (λ r. r.last_login) (λ a r. record r { last_login = a })
      ∷ field "lastPasswordChange" (number_codec J) (λ r. r.last_password_change)
          (λ a r. record r { last_password_change = a })
      ∷ field "lastEmailCheck" (number_codec J) (λ r. r.last_email_check)
          (λ a r. record r { last_email_check = a })
      ∷ field "securityPolicyChange" (number_codec J) (λ r. r.security_policy_change)
          (λ a r. record r { security_policy_change = a })
      ∷ field "validated" (bool_codec J) (λ r. r.validated) (λ a r. record r { validated = a })
      ∷ field "changePassword" (bool_codec J) (λ r. r.change_password)
          (λ a r. record r { change_password = a })
      ∷ field "waitingForEmailCheck" (bool_codec J) (λ r. r.waiting_for_email_check)
          (λ a r. record r { waiting_for_email_check = a })
      ∷ field "suspended" (bool_codec J) (λ r. r.suspended) (λ a r. record r { suspended = a })
      ∷ field "blackListed" (bool_codec J) (λ r. r.black_listed)
          (λ a r. record r { black_listed = a })
      ∷ field "currentPassword" (text_codec J) (λ r. r.current_password)
          (λ a r. record r { current_password = a })
      ∷ field "lastPasswords" (text_list_codec J) (λ r. r.last_passwords)
          (λ a r. record r { last_passwords = a })
      ∷ field "oauthType" (text_codec J) (λ r. r.oauth_type) (λ a r. record r { oauth_type = a })
      ∷ field "oauthUserInfo" (text_codec J) (λ r. r.oauth_user_info)
          (λ a r. record r { oauth_user_info = a })
      ∷ field "modified" (number_codec J) (λ r. r.modified) (λ a r. record r { modified = a })
      ∷ field "signingUp" (text_codec J) (λ r. r.signing_up) (λ a r. record r { signing_up = a })
      ∷ []

  abbrev pub token_codec : Codec Var WebToken
  token_codec = record {
    write = of_struct J web_token_written;
    read = (object_codec J web_token_read).read;
  }

  abbrev pub user_codec : Codec Var UserInfo
  user_codec = record {
    write = of_struct J user_info_written;
    read = (object_codec J user_info_read).read;
  }

  unfoldable pub user_info_and_policy_fields : List (JsonField Var UserInfoAndPolicy)
  user_info_and_policy_fields =
      field "tokenInfo" (token_codec) (λ r. r.webtoken) (λ a r. record r { webtoken = a })
      ∷ field "userInfo" (user_codec) (λ r. r.userinfo) (λ a r. record r { userinfo = a })
      ∷ []

-- MergeNotes(const NoteInfoVec &, const UserInfo &, NoteInfoVec &): the time and the author of a new
-- note are not those it came with.
unfoldable pub merge_notes : ℕ → List NoteInfo → UserInfo → List NoteInfo → List NoteInfo
merge_notes now [] user notes = notes
merge_notes now (i ∷ new_notes) user notes =
    merge_notes now new_notes user
      (notes ++ record { created = now; created_by = user.email; note = i.note } ∷ [])

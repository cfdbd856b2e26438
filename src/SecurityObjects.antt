-- ===== src/SecurityObjects.antt =====
-- The structs of src/RESTObjects/RESTAPI_SecurityObjects.h that say who uses the services, with
-- their to_json and from_json (RESTAPI_SecurityObjects.cpp); notes first, since firmware has them.
pub mod Access
pub mod ApiKeys
pub mod Users
pub mod Services
use wlan_cloud_ucentralfms.Common.{ℕ, Bool, false, List, [], ◌∷◌, Text}
use wlan_cloud_ucentralfms.Json.{Json}
use wlan_cloud_ucentralfms.Json.Codecs.{text_codec, number_codec, bool_codec, pair_list_codec}
use wlan_cloud_ucentralfms.Json.Struct.{JsonField, field, object_codec, vector_codec}

-- SecurityObjects::NoteInfo
pub record NoteInfo : Type 0 where
  pub created : ℕ
  pub created_by : Text
  pub note : Text

-- SecurityObjects::MobilePhoneNumber
pub record MobilePhoneNumber : Type 0 where
  pub number : Text
  pub verified : Bool
  pub primary : Bool

-- SecurityObjects::MfaAuthInfo
pub record MfaAuthInfo : Type 0 where
  pub enabled : Bool
  pub method : Text

-- SecurityObjects::UserLoginLoginExtensions
pub record UserLoginLoginExtensions : Type 0 where
  pub mobiles : List MobilePhoneNumber
  pub mfa : MfaAuthInfo
  pub authenticator_secret : Text

-- SecurityObjects::MFAChallengeRequest
pub record MfaChallengeRequest : Type 0 where
  pub uuid : Text
  pub question : Text
  pub method : Text
  pub created : ℕ

-- SecurityObjects::MFAChallengeResponse
pub record MfaChallengeResponse : Type 0 where
  pub uuid : Text
  pub answer : Text

-- SecurityObjects::SubMfaConfig
pub record SubMfaConfig : Type 0 where
  pub id : Text
  pub type : Text
  pub sms : Text
  pub email : Text

-- SecurityObjects::Preferences
pub record Preferences : Type 0 where
  pub id : Text
  pub modified : ℕ
  pub data_pairs : List (Text × Text)

abbrev pub fresh_note_info : NoteInfo
fresh_note_info = record { created = 0; created_by = []; note = [] }

abbrev pub fresh_mobile_phone_number : MobilePhoneNumber
fresh_mobile_phone_number = record { number = []; verified = false; primary = false }

abbrev pub fresh_mfa_auth_info : MfaAuthInfo
fresh_mfa_auth_info = record { enabled = false; method = [] }

abbrev pub fresh_user_login_login_extensions : UserLoginLoginExtensions
fresh_user_login_login_extensions = record {
  mobiles = [];
  mfa = fresh_mfa_auth_info;
  authenticator_secret = [];
}

abbrev pub fresh_mfa_challenge_request : ℕ → MfaChallengeRequest
fresh_mfa_challenge_request created = record {
  uuid = [];
  question = [];
  method = [];
  created = created;
}

abbrev pub fresh_mfa_challenge_response : MfaChallengeResponse
fresh_mfa_challenge_response = record { uuid = []; answer = [] }

abbrev pub fresh_sub_mfa_config : SubMfaConfig
fresh_sub_mfa_config = record { id = []; type = []; sms = []; email = [] }

abbrev pub fresh_preferences : ℕ → Preferences
fresh_preferences modified = record { id = []; modified = modified; data_pairs = [] }

module _ {Var Object : Type 0} (J : Json Var Object) where
  unfoldable pub note_info_fields : List (JsonField Var NoteInfo)
  note_info_fields =
      field "created" (number_codec J) (λ r. r.created) (λ a r. record r { created = a })
      ∷ field "createdBy" (text_codec J) (λ r. r.created_by) (λ a r. record r { created_by = a })
      ∷ field "note" (text_codec J) (λ r. r.note) (λ a r. record r { note = a })
      ∷ []

  unfoldable pub mobile_phone_number_fields : List (JsonField Var MobilePhoneNumber)
  mobile_phone_number_fields =
      field "number" (text_codec J) (λ r. r.number) (λ a r. record r { number = a })
      ∷ field "verified" (bool_codec J) (λ r. r.verified) (λ a r. record r { verified = a })
      ∷ field "primary" (bool_codec J) (λ r. r.primary) (λ a r. record r { primary = a })
      ∷ []

  unfoldable pub mfa_auth_info_fields : List (JsonField Var MfaAuthInfo)
  mfa_auth_info_fields =
      field "enabled" (bool_codec J) (λ r. r.enabled) (λ a r. record r { enabled = a })
      ∷ field "method" (text_codec J) (λ r. r.method) (λ a r. record r { method = a })
      ∷ []

  unfoldable pub user_login_login_extensions_fields : List (JsonField Var UserLoginLoginExtensions)
  user_login_login_extensions_fields =
      field "mobiles" (vector_codec J mobile_phone_number_fields fresh_mobile_phone_number)
        (λ r. r.mobiles) (λ a r. record r { mobiles = a })
      ∷ field "mfa" (object_codec J mfa_auth_info_fields) (λ r. r.mfa) (λ a r. record r { mfa = a })
      ∷ field "authenticatorSecret" (text_codec J) (λ r. r.authenticator_secret)
          (λ a r. record r { authenticator_secret = a })
      ∷ []

  unfoldable pub mfa_challenge_request_fields : List (JsonField Var MfaChallengeRequest)
  mfa_challenge_request_fields =
      field "uuid" (text_codec J) (λ r. r.uuid) (λ a r. record r { uuid = a })
      ∷ field "question" (text_codec J) (λ r. r.question) (λ a r. record r { question = a })
      ∷ field "created" (number_codec J) (λ r. r.created) (λ a r. record r { created = a })
      ∷ field "method" (text_codec J) (λ r. r.method) (λ a r. record r { method = a })
      ∷ []

  unfoldable pub mfa_challenge_response_fields : List (JsonField Var MfaChallengeResponse)
  mfa_challenge_response_fields =
      field "uuid" (text_codec J) (λ r. r.uuid) (λ a r. record r { uuid = a })
      ∷ field "answer" (text_codec J) (λ r. r.answer) (λ a r. record r { answer = a })
      ∷ []

  unfoldable pub sub_mfa_config_fields : List (JsonField Var SubMfaConfig)
  sub_mfa_config_fields =
      field "id" (text_codec J) (λ r. r.id) (λ a r. record r { id = a })
      ∷ field "type" (text_codec J) (λ r. r.type) (λ a r. record r { type = a })
      ∷ field "sms" (text_codec J) (λ r. r.sms) (λ a r. record r { sms = a })
      ∷ field "email" (text_codec J) (λ r. r.email) (λ a r. record r { email = a })
      ∷ []

  unfoldable pub preferences_fields : List (JsonField Var Preferences)
  preferences_fields =
      field "id" (text_codec J) (λ r. r.id) (λ a r. record r { id = a })
      ∷ field "modified" (number_codec J) (λ r. r.modified) (λ a r. record r { modified = a })
      ∷ field "data" (pair_list_codec J) (λ r. r.data_pairs) (λ a r. record r { data_pairs = a })
      ∷ []

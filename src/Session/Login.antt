-- ===== src/Session/Login.antt =====
-- `login` of internalsdk/session_model.go, with `ConvertToUserDetailsResponse` of internalsdk/utils.go.
use lantern_client.Prelude.{String, Bool, Option, some, none, List, ℕ, ℤ, if◌then◌else◌}
use lantern_client.Pro.User.{User, Device}
use lantern_client.Session.Db.{Call, fail, ◌then_◌}
use lantern_client.Session.Account.{logged_in, device_limit_flow}
use lantern_client.Session.Values.{get_device_id}

-- `LegacyUserData`, as far as it is converted and read.
pub record LegacyUser : Type 0 where
  pub user_id : ℤ
  pub code : String
  pub user_level : String
  pub expiration : ℤ
  pub email : String
  pub user_status : String
  pub devices : List Device

-- `protos.LoginResponse`, with the salt that the client of the authentication returns beside it.
pub record LoginResponse : Type 0 where
  pub success : Bool
  pub legacy_id : ℤ
  pub legacy_token : String
  pub devices : List Device
  pub legacy_user_data : LegacyUser
  pub salt : List ℕ

-- `ConvertToUserDetailsResponse`: the referral is the user's own code.
unfoldable pub convert_to_user_details : LoginResponse → User
convert_to_user_details r = record {
  user_id = r.legacy_user_data.user_id;
  token = r.legacy_token;
  referral = r.legacy_user_data.code;
  expiration = r.legacy_user_data.expiration;
  email = r.legacy_user_data.email;
  user_level = r.legacy_user_data.user_level;
  user_status = r.legacy_user_data.user_status;
  devices = r.legacy_user_data.devices;
}

module _ (format : ℤ → String) where
  -- At the limit of devices the answer is stored, and the sign-in is an error.
  unfoldable pub answered : String → Option LoginResponse → Call
  answered email none = fail
  answered email (some r) =
      if r.success
      then logged_in format email r.salt (convert_to_user_details r)
      else device_limit_flow r.devices r.legacy_id r.legacy_token then_ fail

  -- `login`; `ask` is the sign-in at the server with the id of the device.
  unfoldable pub login : (String → String → String → Option LoginResponse) → String → String → Call
  login ask email password db = answered email (ask email password (get_device_id db)) db

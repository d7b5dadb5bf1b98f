-- ===== src/Session/Account.antt =====
-- What happens to the account of internalsdk/session_model.go: caching the user's details, creating a
-- user, signing in and signing out. The answers of the servers are arguments.
use lantern_client.Prelude.{
  String, Bool, true, false, not, ◌&&◌, Option, none, some, List, [], ◌∷◌, ℕ, zero, ℤ, pos,
  if◌then◌else◌, ◌==◌,
}
use lantern_client.Pro.User.{User, Device, UserDataResponse, Result, ok, err, device_found}
use lantern_client.Session.Db.{
  Call, nil, text, devices, mutate, succeed, fail, ◌then_◌, ignore, get_bool, get_text, set_email,
  set_referral_code, set_user_level, set_expiration, set_pro_user, set_devices,
  set_user_id_and_token, save_user_salt, set_logged_in,
}

-- The ladder of `cacheUserDetail`, with its third rung for a device that is not found.
unfoldable pub cached_status : User → Bool → Bool → Bool
cached_status u first_time found =
    if u.user_level == "pro" && first_time
    then true
    else if u.user_level == "pro" && not first_time && found
    then true
    else if u.user_level == "pro"
    then true
    else false

unfoldable pub decide_pro : User → Call
decide_pro u db =
    ignore
      (set_pro_user (
        cached_status u (get_bool "isFirstTime" db)
          (device_found (get_text "deviceid" db) u.devices)))
      db

unfoldable pub cache_email : String → Call
cache_email email = if email == "" then succeed else ignore (set_email email)

unfoldable pub cache_referral : String → Call
cache_referral code = if code == "" then succeed else set_referral_code code

module _ (format : ℤ → String) where
  -- `cacheUserDetail` up to its last statement.
  unfoldable pub cache_profile : User → Call
  cache_profile u =
      cache_email u.email
      then_ cache_referral u.referral
      then_ set_user_level u.user_level
      then_ set_expiration format u.expiration
      then_ decide_pro u
      then_ set_devices u.devices

  unfoldable pub cache_user_detail : User → Call
  cache_user_detail u = cache_profile u then_ set_user_id_and_token u.user_id u.token

  unfoldable pub cache_found : Option User → Call
  cache_found none db = fail db
  cache_found (some u) db =
      cache_user_detail (if get_bool "IsUserLoggedIn" db then record u { email = "" } else u) db

  -- `userDetail`: a request that fails is no error.
  unfoldable pub user_detail : Result UserDataResponse → Call
  user_detail (err e) = succeed
  user_detail (ok r) = cache_found r.user

  -- `login` once the server has answered: `salt` is the salt, and `u` the user of the response.
  unfoldable pub logged_in : String → List ℕ → User → Call
  logged_in email salt u =
      ignore (set_logged_in true)
      then_ ignore (save_user_salt salt)
      then_ cache_user_detail (record u { email = email })

unfoldable pub is_zero : ℤ → Bool
is_zero (pos zero) = true
is_zero _ = false

unfoldable pub create_found : Option User → Call
create_found none = fail
create_found (some u) = if is_zero u.user_id then fail else set_user_id_and_token u.user_id u.token

-- `userCreate`.
unfoldable pub user_create : Result UserDataResponse → Call
unfolding create_found
user_create (err e) = fail
user_create (ok r) = create_found r.user

-- `deviceLimitFlow`: the devices of the account, then its identity, so that one can be removed.
unfoldable pub device_limit_flow : List Device → ℤ → String → Call
device_limit_flow ds id token =
    mutate (("devices", devices ds) ∷ []) then_ set_user_id_and_token id token

-- `clearLocalUserData`.
unfoldable pub clear_local_user_data : Call
clear_local_user_data =
    mutate (("user_salt", nil) ∷ ("emailAddress", text "") ∷ ("/bandwidth", nil) ∷ [])
    then_ ignore (set_logged_in false)
    then_ set_pro_user false

-- `signOut`, given whether the server signed the user out (`none` is an error) and how it answers the
-- creation of a new user.
unfoldable pub sign_out : Option Bool → Result UserDataResponse → Call
sign_out none resp = fail
sign_out (some false) resp = fail
sign_out (some true) resp = clear_local_user_data then_ user_create resp

-- ===== src/Desktop/Auth.antt =====
-- What desktop/auth.go does when the user signs up, signs in or out, recovers or deletes an account. The
-- flag says that the answer to the UI is "true", any other answer being an error, and `none` is a panic.
-- What the servers answer is an argument, `none` or `false` where they refuse. The state is that of
-- the user cache; the message of a sign-in to the UI and the plans that `signup` fetches are left out, and so
-- is the panic at the nil client that an empty salt, password or address gives (internalsdk/auth/srp.go:20).
use lantern_client.Prelude.{
  ℕ, String, Bool, true, false, Option, none, some, List, [], ℤ, pos, length, eqb, to_lower,
  if◌then◌else◌, ◌>>=◌,
}
use lantern_client.Settings.Store.{Settings, set_user_id_and_token}
use lantern_client.Settings.Accessors.{
  get_user_id, get_token, get_email_address, get_device_id, get_salt, save_salt, set_email_address,
  set_pro_user, set_expiration_date, set_user_logged_in,
}
use lantern_client.Session.Secrets.{Srp, Prepared, new_client, prove}
use lantern_client.Session.Login.{LoginResponse}
use lantern_client.Desktop.Users.{CachedUser, App, set_user_data}

abbrev pub with_settings : App → Settings → App
with_settings app s = record app { settings = s }

-- `getUserSalt`: a salt of 16 bytes is in the settings, or the server is asked.
unfoldable pub get_user_salt : (String → Option (List ℕ)) → String → App → Option (List ℕ)
get_user_salt server email app =
    let cached = get_salt app.settings in
    if eqb (length cached) 16 then some cached else server (to_lower email)

signed_up : String → Option (List ℕ) → App → Option (Bool × App)
signed_up email none app = some (false, app)
signed_up email (some salt) app =
    save_salt salt app.settings >>= set_email_address email >>= set_user_logged_in true >>= λ s.
    some (true, with_settings app s)

-- `signup`: the account has the address in lower case, the settings as it was given.
unfoldable pub signup :
    (String → String → Option (List ℕ)) → String → String → App → Option (Bool × App)
unfolding signed_up
signup ask email password app = signed_up email (ask (to_lower email) password) app

-- `ConvertToUserDetailsResponse`, as far as the desktop reads it.
unfoldable pub convert_to_cached_user : LoginResponse → CachedUser
convert_to_cached_user r = record {
  user_id = r.legacy_user_data.user_id;
  token = r.legacy_token;
  code = r.legacy_user_data.code;
  email = r.legacy_user_data.email;
  expiration = r.legacy_user_data.expiration;
  user_level = r.legacy_user_data.user_level;
  user_status = r.legacy_user_data.user_status;
  devices = r.legacy_user_data.devices;
}

-- `deviceLimitFlow`: the user is cached with the id, the token and the devices only.
unfoldable pub device_limit_flow : LoginResponse → App → App
device_limit_flow r = set_user_data r.legacy_id record {
  user_id = r.legacy_id;
  token = r.legacy_token;
  code = "";
  email = "";
  expiration = pos 0;
  user_level = "";
  user_status = "";
  devices = r.devices;
}

logged_in : String → LoginResponse → App → Option (Bool × App)
logged_in email r app =
    save_salt r.salt app.settings >>= set_user_logged_in true >>= set_email_address email >>= λ s.
    let u : CachedUser = record (convert_to_cached_user r) { email = email } in
    some (true, set_user_data r.legacy_id u (with_settings app s))

answered : String → Option LoginResponse → App → Option (Bool × App)
unfolding logged_in
answered email none app = some (false, app)
answered email (some r) app =
    let stored = logged_in email r app in
    if r.success then stored else some (false, device_limit_flow r app)

-- `login`; `ask` is the sign-in at the server with the address in lower case and the id of the device.
unfoldable pub login :
    (String → String → String → Option LoginResponse) → String → String → App → Option (Bool × App)
unfolding answered
login ask email password app =
    answered email (ask (to_lower email) password (get_device_id app.settings)) app

-- `clearLocalUserData`.
unfoldable pub clear_local_user_data : Settings → Option Settings
clear_local_user_data s =
    save_salt [] s
    >>= set_email_address ""
    >>= set_pro_user false
    >>= set_expiration_date ""
    >>= set_user_logged_in false

-- What follows a sign-out that the server has accepted; of the user that is created at the Pro server
-- only whether there is one is looked at.
unfoldable pub signed_out : Bool → Option Bool → App → Option (Bool × App)
signed_out created (some true) app =
    clear_local_user_data app.settings >>= λ s. some (created, with_settings app s)
signed_out created _ app = some (false, app)

-- `logout`; `out` is the request with the address, the id of the device, the token and the user id.
unfoldable pub logout :
    (String → String → String → ℤ → Option Bool) → Bool → App → Option (Bool × App)
logout out created app =
    let s = app.settings in
    signed_out created (out (get_email_address s) (get_device_id s) (get_token s) (get_user_id s))
      app

-- The end of `deleteAccount`, once the server has deleted the account.
unfoldable pub deleted : Bool → App → Option (Bool × App)
deleted created app =
    clear_local_user_data app.settings >>= set_user_id_and_token (pos 0) "" >>= λ s.
    some (created, with_settings app s)

-- What is done with a salt that is stored when the server has taken its verifier.
recovered : List ℕ → Bool → App → Option (Bool × App)
recovered salt false app = some (false, app)
recovered salt true app = save_salt salt app.settings >>= λ s. some (true, with_settings app s)

module _ (srp : Srp) where
  sent : (List ℕ → Bool) → Option (List ℕ) → Bool
  sent accept none = false
  sent accept (some bytes) = accept bytes

  recovery :
      (List ℕ → List ℕ → Bool) → String → String → Option (List ℕ) → App → Option (Bool × App)
  unfolding sent recovered
  recovery accept email password none app = some (false, app)
  recovery accept email password (some salt) app =
      recovered salt (sent (accept salt) (srp.verifier (new_client srp password email salt))) app

  -- `completeRecoveryByEmail`, given the new salt; `recover` is the request.
  unfoldable pub complete_recovery_by_email :
      (String → String → List ℕ → List ℕ → Bool)
      → Option (List ℕ)
      → String
      → String
      → String
      → App
      → Option (Bool × App)
  unfolding recovery
  complete_recovery_by_email recover salt email code password app =
      recovery (λ s v. recover (to_lower email) code s v) (to_lower email) password salt app

  proved :
      (String → List ℕ → String → Bool)
      → Bool
      → String
      → Option (List ℕ)
      → App
      → Option (Bool × App)
  proved delete created email none app = some (false, app)
  proved delete created email (some proof) app =
      let gone = deleted created app in
      if delete email proof (get_device_id app.settings) then gone else some (false, app)

  -- `deleteAccount`.
  unfoldable pub delete_account :
      (String → Option (List ℕ))
      → (String → List ℕ → Option Prepared)
      → (String → List ℕ → String → Bool)
      → Bool
      → String
      → App
      → Option (Bool × App)
  unfolding proved
  delete_account salts prepare delete created password app =
      let email = to_lower (get_email_address app.settings) in
      proved delete created email (prove srp prepare password email (get_user_salt salts email app))
        app

-- ===== src/Desktop/SignedOut.antt =====
-- What `logout` and `deleteAccount` of desktop/auth.go leave of the user.
use lantern_client.Prelude.{
  ◌≡◌, refl, String, Bool, true, false, Option, none, some, [], ◌∷◌, ℤ, Dict, lookup, insert,
  lookup-insert, insert_all, sym, if◌then◌else◌, ◌==◌, ◌>>=◌, Ensures, Ensures-bind, Ensures-mono,
}
use lantern_client.Settings.Value.{Value, bool, string, bytes}
use lantern_client.Settings.Names.{
  sn_salt, sn_email_address, sn_user_pro, sn_expiry_date, sn_user_logged_in, sn_user_id,
  sn_user_token, sn_device_id, setting_meta,
}
use lantern_client.Settings.Types.{Fits, IsTyped, set_vals-IsTyped}
use lantern_client.Settings.Store.{Settings, set_val, get_bool, get_string, get_int64, get_bytes}
use lantern_client.Settings.Writes.{set_vals-Written}
use lantern_client.Settings.Accessors.{
  get_user_id, get_token, get_email_address, get_device_id, get_salt, is_pro_user,
  get_expiration_date, is_user_logged_in, save_salt, set_email_address, set_pro_user,
  set_expiration_date, set_user_logged_in,
}
use lantern_client.Desktop.Users.{App}
use lantern_client.Desktop.Auth.{clear_local_user_data, signed_out, logout}

Holds : Dict Value → Settings → Type 0
Holds m s = IsTyped s × (s.m ≡ m)

put :
    (k : String) (v : Value) (m : Dict Value)
    → Fits k v
    → (s : Settings) → Holds m s
    → Ensures (Holds (insert k v m)) (set_val k v s)
unfolding Holds set_val insert_all
put k v m f s (h, e) =
    Ensures-mono IsTyped _ _ (set_vals-IsTyped ((k, v) ∷ []) s (f, tt) h)
      λ s' same h'. (h', rw (sym e) (set_vals-Written _ s s' same).new_m)

-- The next value is stored over those that are.
next :
    (k : String) (v : Value) (m : Dict Value) (o : Option Settings)
    → Fits k v
    → Ensures (Holds m) o
    → Ensures (Holds (insert k v m)) (o >>= set_val k v)
next k v m o f h = Ensures-bind (Holds m) (Holds (insert k v m)) o (set_val k v) h (put k v m f)

cleared_map : Dict Value → Dict Value
cleared_map m = insert sn_user_logged_in (bool false) (
    insert sn_expiry_date (string "") (
      insert sn_user_pro (bool false)
        (insert sn_email_address (string "") (insert sn_salt (bytes []) m))))

clear-Holds :
    (s : Settings) → IsTyped s → Ensures (Holds (cleared_map s.m)) (clear_local_user_data s)
unfolding clear_local_user_data Holds cleared_map save_salt set_email_address set_pro_user
    set_expiration_date set_user_logged_in Fits lookup setting_meta
clear-Holds s h = next sn_user_logged_in (bool false) _ _ tt (
    next sn_expiry_date (string "") _ _ tt (
      next sn_user_pro (bool false) _ _ tt
        (next sn_email_address (string "") _ _ tt (put sn_salt (bytes []) s.m tt s (h, refl)))))

lookup-cleared :
    (j : String) (m : Dict Value)
    → lookup j (cleared_map m) ≡ (
        if sn_user_logged_in == j
        then some (bool false)
        else if sn_expiry_date == j
        then some (string "")
        else if sn_user_pro == j
        then some (bool false)
        else if sn_email_address == j
        then some (string "")
        else if sn_salt == j
        then some (bytes [])
        else lookup j m)
unfolding cleared_map
lookup-cleared j m =
    rw (lookup-insert, lookup-insert, lookup-insert, lookup-insert, lookup-insert) refl

-- The salt, the address, the Pro flag, the expiration and the sign-in are cleared, the id of the device stays,
-- and the user id and the token are the given ones. Other settings, as the referral code, are not spoken of.
pub record Cleared (device : String) (id : ℤ) (token : String) (s : Settings) : Type 0 where
  pub salt_read : get_salt s ≡ []
  pub email_read : get_email_address s ≡ ""
  pub not_pro : is_pro_user s ≡ false
  pub no_expiry : get_expiration_date s ≡ ""
  pub not_logged_in : is_user_logged_in s ≡ false
  pub device_read : get_device_id s ≡ device
  pub id_read : get_user_id s ≡ id
  pub token_read : get_token s ≡ token

cleared_lem :
    (before s : Settings)
    → Holds (cleared_map before.m) s
    → Cleared (get_device_id before) (get_user_id before) (get_token before) s
unfolding Holds get_salt get_email_address is_pro_user get_expiration_date is_user_logged_in
    get_device_id get_user_id get_token get_bool get_string get_int64 get_bytes
cleared_lem before s (_, e) = record {
  salt_read = rw (e, lookup-cleared sn_salt before.m) refl;
  email_read = rw (e, lookup-cleared sn_email_address before.m) refl;
  not_pro = rw (e, lookup-cleared sn_user_pro before.m) refl;
  no_expiry = rw (e, lookup-cleared sn_expiry_date before.m) refl;
  not_logged_in = rw (e, lookup-cleared sn_user_logged_in before.m) refl;
  device_read = rw (e, lookup-cleared sn_device_id before.m) refl;
  id_read = rw (e, lookup-cleared sn_user_id before.m) refl;
  token_read = rw (e, lookup-cleared sn_user_token before.m) refl;
}

-- What a sign-out leaves: at a refusal everything; else those settings are cleared and the cache stays.
unfoldable pub LoggedOut : Option Bool → Bool → App → Bool × App → Type 0
LoggedOut (some true) created app (done, app') =
    (done ≡ created)
    × (app'.user_cache ≡ app.user_cache)
    × Cleared (get_device_id app.settings) (get_user_id app.settings) (get_token app.settings)
        app'.settings
LoggedOut _ created app (done, app') = (done ≡ false) × (app' ≡ app)

signed_out-LoggedOut :
    (created : Bool) (answer : Option Bool) (app : App)
    → IsTyped app.settings
    → Ensures (LoggedOut answer created app) (signed_out created answer app)
unfolding signed_out LoggedOut
signed_out-LoggedOut created none app h = (refl, refl)
signed_out-LoggedOut created (some false) app h = (refl, refl)
signed_out-LoggedOut created (some true) app h =
    Ensures-bind (Holds (cleared_map app.settings.m)) _ (clear_local_user_data app.settings) _
      (clear-Holds app.settings h) λ s holds. (refl, refl, cleared_lem app.settings s holds)

-- In settings whose values have the types of the table, `logout` returns. Where the server refuses, or
-- cannot be asked, it reports an error and nothing has changed. Where it accepts, the salt, the address, the
-- Pro flag, the expiration and the sign-in are gone, but the id of the device, the cache, the user id and
-- the token are those of the user who has signed out, also when a new user was created; the
-- report is whether one was.
pub logout-LoggedOut :
    (out : String → String → String → ℤ → Option Bool) (created : Bool) (app : App)
    → IsTyped app.settings
    → let s = app.settings in
      Ensures
        (LoggedOut
          (out (get_email_address s) (get_device_id s) (get_token s) (get_user_id s))
          created
          app)
        (logout out created app)
unfolding logout
logout-LoggedOut out created app h =
    signed_out-LoggedOut created
      (out (get_email_address app.settings) (get_device_id app.settings) (get_token app.settings)
        (get_user_id app.settings))
      app h

-- ===== src/Settings/Accessors.antt =====
-- The accessors of the desktop settings (desktop/app/settings.go), a definition for each method.
use lantern_client.Prelude.{String, Bool, Option, some, List, ℕ, ℤ, pos, zero}
use lantern_client.Settings.Value.{Value, bool, int64, string, bytes, strings}
use lantern_client.Settings.Names.{
  sn_auto_report, sn_auto_launch, sn_proxy_all, sn_google_ads, sn_system_proxy, sn_disconnected,
  sn_language, sn_country, sn_local_http_token, sn_device_id, sn_email_address, sn_user_id,
  sn_user_token, sn_user_pro, sn_referral_code, sn_migrated_device_id_for_user_id, sn_taken_surveys,
  sn_past_announcements, sn_addr, sn_socks_addr, sn_ui_addr, sn_enabled_experiments,
  sn_user_first_visit, sn_expiry_date, sn_user_logged_in, sn_salt,
}
use lantern_client.Settings.Store.{
  Settings, set_val, set_bool, set_string, set_int64, set_string_array, get_bool, get_string,
  get_int64, get_bytes, get_string_array,
}

unfoldable pub get_proxy_all : Settings → Bool
get_proxy_all s = get_bool sn_proxy_all s

unfoldable pub set_proxy_all : Bool → Settings → Option Settings
set_proxy_all a s = set_val sn_proxy_all (bool a) s

unfoldable pub get_disconnected : Settings → Bool
get_disconnected s = get_bool sn_disconnected s

unfoldable pub set_disconnected : Bool → Settings → Option Settings
set_disconnected a s = set_bool sn_disconnected (bool a) s

unfoldable pub get_google_ads : Settings → Bool
get_google_ads s = get_bool sn_google_ads s

unfoldable pub set_google_ads : Bool → Settings → Option Settings
set_google_ads a s = set_val sn_google_ads (bool a) s

unfoldable pub is_auto_report : Settings → Bool
is_auto_report s = get_bool sn_auto_report s

unfoldable pub is_auto_launch : Settings → Bool
is_auto_launch s = get_bool sn_auto_launch s

unfoldable pub set_language : String → Settings → Option Settings
set_language a s = set_val sn_language (string a) s

unfoldable pub get_language : Settings → String
get_language s = get_string sn_language s

unfoldable pub locale : Settings → String
locale s = get_string sn_language s

unfoldable pub set_referral_code : String → Settings → Option Settings
set_referral_code a s = set_val sn_referral_code (string a) s

unfoldable pub get_referral_code : Settings → String
get_referral_code s = get_string sn_referral_code s

unfoldable pub set_country : String → Settings → Option Settings
set_country a s = set_val sn_country (string a) s

unfoldable pub get_country : Settings → String
get_country s = get_string sn_country s

unfoldable pub set_local_http_token : String → Settings → Option Settings
set_local_http_token a s = set_val sn_local_http_token (string a) s

unfoldable pub get_local_http_token : Settings → String
get_local_http_token s = get_string sn_local_http_token s

unfoldable pub set_ui_addr : String → Settings → Option Settings
set_ui_addr a s = set_val sn_ui_addr (string a) s

unfoldable pub get_addr : Settings → String
get_addr s = get_string sn_addr s

unfoldable pub set_addr : String → Settings → Option Settings
set_addr a s = set_string sn_addr (string a) s

unfoldable pub get_socks_addr : Settings → String
get_socks_addr s = get_string sn_socks_addr s

unfoldable pub set_socks_addr : String → Settings → Option Settings
set_socks_addr a s = set_string sn_socks_addr (string a) s

unfoldable pub get_email_address : Settings → String
get_email_address s = get_string sn_email_address s

unfoldable pub set_email_address : String → Settings → Option Settings
set_email_address a s = set_val sn_email_address (string a) s

unfoldable pub get_ui_addr : Settings → String
get_ui_addr s = get_string sn_ui_addr s

unfoldable pub get_device_id : Settings → String
get_device_id s = get_string sn_device_id s

unfoldable pub get_user_id : Settings → ℤ
get_user_id s = get_int64 sn_user_id s

unfoldable pub get_token : Settings → String
get_token s = get_string sn_user_token s

unfoldable pub get_migrated_device_id_for_user_id : Settings → ℤ
get_migrated_device_id_for_user_id s = get_int64 sn_migrated_device_id_for_user_id s

unfoldable pub set_migrated_device_id_for_user_id : ℤ → Settings → Option Settings
set_migrated_device_id_for_user_id a s = set_int64 sn_migrated_device_id_for_user_id (int64 a) s

unfoldable pub get_system_proxy : Settings → Bool
get_system_proxy s = get_bool sn_system_proxy s

unfoldable pub set_pro_user : Bool → Settings → Option Settings
set_pro_user a s = set_val sn_user_pro (bool a) s

unfoldable pub is_pro_user : Settings → Bool
is_pro_user s = get_bool sn_user_pro s

unfoldable pub set_user_first_visit : Bool → Settings → Option Settings
set_user_first_visit a s = set_val sn_user_first_visit (bool a) s

unfoldable pub get_user_first_visit : Settings → Bool
get_user_first_visit s = get_bool sn_user_first_visit s

unfoldable pub set_expiration_date : String → Settings → Option Settings
set_expiration_date a s = set_val sn_expiry_date (string a) s

unfoldable pub get_expiration_date : Settings → String
get_expiration_date s = get_string sn_expiry_date s

unfoldable pub is_user_logged_in : Settings → Bool
is_user_logged_in s = get_bool sn_user_logged_in s

unfoldable pub set_user_logged_in : Bool → Settings → Option Settings
set_user_logged_in a s = set_val sn_user_logged_in (bool a) s

unfoldable pub get_salt : Settings → List ℕ
get_salt s = get_bytes sn_salt s

unfoldable pub save_salt : List ℕ → Settings → Option Settings
save_salt a s = set_val sn_salt (bytes a) s

-- `SetExpiration`: `format` stands for the date of a number of seconds since 1970. Zero stores nothing.
unfoldable pub set_expiration : (ℤ → String) → ℤ → Settings → Option Settings
set_expiration format (pos zero) s = some s
set_expiration format expiration s = set_expiration_date (format expiration) s

module _ (sprint : Value → String) where
  unfoldable pub get_enabled_experiments : Settings → List String
  get_enabled_experiments s = get_string_array sprint sn_enabled_experiments s

  unfoldable pub set_enabled_experiments : List String → Settings → Option Settings
  set_enabled_experiments a s = set_string_array sprint sn_enabled_experiments (strings a) s

  unfoldable pub get_taken_surveys : Settings → List String
  get_taken_surveys s = get_string_array sprint sn_taken_surveys s

  unfoldable pub set_taken_surveys : List String → Settings → Option Settings
  set_taken_surveys a s = set_string_array sprint sn_taken_surveys (strings a) s

  unfoldable pub get_past_announcements : Settings → List String
  get_past_announcements s = get_string_array sprint sn_past_announcements s

  unfoldable pub set_past_announcements : List String → Settings → Option Settings
  set_past_announcements a s = set_string_array sprint sn_past_announcements (strings a) s

-- ===== src/Settings/Names.antt =====
-- The names of the settings and their table of types (desktop/app/settings.go, `settingMeta`).
use lantern_client.Prelude.{String, Bool, true, false, Option, none, some, [], ◌∷◌, Dict, lookup}

pub data SettingType : Type 0 where
  st_bool st_number st_string st_string_array : SettingType

pub record Meta : Type 0 where
  pub s_type : SettingType
  pub persist : Bool
  pub omitempty : Bool

abbrev meta : SettingType → Bool → Bool → Meta
meta t p o = record { s_type = t; persist = p; omitempty = o }

abbrev pub sn_device_id : String
sn_device_id = "deviceID"

abbrev pub sn_user_id : String
sn_user_id = "userID"

abbrev pub sn_user_token : String
sn_user_token = "userToken"

abbrev pub sn_version : String
sn_version = "version"

abbrev pub sn_build_date : String
sn_build_date = "buildDate"

abbrev pub sn_revision_date : String
sn_revision_date = "revisionDate"

abbrev pub sn_past_announcements : String
sn_past_announcements = "pastAnnouncements"

abbrev pub sn_language : String
sn_language = "lang"

abbrev pub sn_salt : String
sn_salt = "salt"

abbrev pub sn_auto_report : String
sn_auto_report = "autoReport"

abbrev pub sn_auto_launch : String
sn_auto_launch = "autoLaunch"

abbrev pub sn_proxy_all : String
sn_proxy_all = "proxyAll"

abbrev pub sn_google_ads : String
sn_google_ads = "googleAds"

abbrev pub sn_system_proxy : String
sn_system_proxy = "systemProxy"

abbrev pub sn_disconnected : String
sn_disconnected = "disconnected"

abbrev pub sn_country : String
sn_country = "country"

abbrev pub sn_local_http_token : String
sn_local_http_token = "localHTTPToken"

abbrev pub sn_email_address : String
sn_email_address = "emailAddress"

abbrev pub sn_user_pro : String
sn_user_pro = "userPro"

abbrev pub sn_referral_code : String
sn_referral_code = "referralCode"

abbrev pub sn_migrated_device_id_for_user_id : String
sn_migrated_device_id_for_user_id = "migratedDeviceIDForUserID"

abbrev pub sn_taken_surveys : String
sn_taken_surveys = "takenSurveys"

abbrev pub sn_addr : String
sn_addr = "addr"

abbrev pub sn_socks_addr : String
sn_socks_addr = "socksAddr"

abbrev pub sn_ui_addr : String
sn_ui_addr = "uiAddr"

abbrev pub sn_enabled_experiments : String
sn_enabled_experiments = "enabledExperiments"

abbrev pub sn_user_first_visit : String
sn_user_first_visit = "userFirstVisit"

abbrev pub sn_expiry_date : String
sn_expiry_date = "expirydate"

abbrev pub sn_user_logged_in : String
sn_user_logged_in = "userLoggedIn"

-- `settingMeta`; the device id and the referral code have no entry.
unfoldable pub setting_meta : Dict Meta
setting_meta =
    ("autoReport", meta st_bool true false)
    ∷ ("autoLaunch", meta st_bool true false)
    ∷ ("proxyAll", meta st_bool true false)
    ∷ ("systemProxy", meta st_bool true false)
    ∷ ("disconnected", meta st_bool false false)
    ∷ ("googleAds", meta st_bool true false)
    ∷ ("lang", meta st_string true true)
    ∷ ("country", meta st_string true true)
    ∷ ("localHTTPToken", meta st_string true true)
    ∷ ("emailAddress", meta st_string true true)
    ∷ ("userID", meta st_number true true)
    ∷ ("userToken", meta st_string true true)
    ∷ ("userPro", meta st_bool true true)
    ∷ ("migratedDeviceIDForUserID", meta st_number true true)
    ∷ ("takenSurveys", meta st_string_array true true)
    ∷ ("pastAnnouncements", meta st_string_array true true)
    ∷ ("addr", meta st_string true true)
    ∷ ("socksAddr", meta st_string true true)
    ∷ ("uiAddr", meta st_string true true)
    ∷ ("version", meta st_string false false)
    ∷ ("buildDate", meta st_string false false)
    ∷ ("revisionDate", meta st_string false false)
    ∷ ("enabledExperiments", meta st_string_array false false)
    ∷ ("expirydate", meta st_string true true)
    ∷ ("userFirstVisit", meta st_bool true true)
    ∷ ("userLoggedIn", meta st_bool true true)
    ∷ ("salt", meta st_string true true)
    ∷ []

abbrev pub or_zero : Option Meta → Meta
or_zero none = meta st_bool false false
or_zero (some t) = t

-- `settingMeta[name]`: the zero struct for a name without an entry.
unfoldable pub meta_of : String → Meta
meta_of name = or_zero (lookup name setting_meta)

-- ===== src/Session/Ads.antt =====
-- Which advertisements the session of internalsdk/session_model.go lets the client show. `android` says
-- whether the platform is Android.
use lantern_client.Prelude.{String, Bool, true, not, [], ◌∷◌, if◌then◌else◌}
use lantern_client.Session.Db.{Call, bool, text, mutate, succeed, ◌then_◌, ignore, get_bool}
use lantern_client.Session.Values.{is_pro_user}

abbrev pub show_ads : String → Call
show_ads kind = mutate (("showAds", text kind) ∷ [])

-- `checkAdsEnabled`.
unfoldable pub check_ads_enabled : Call
check_ads_enabled db =
    if is_pro_user db
    then show_ads "" db
    else if not (get_bool "/hasAllNetworkPermssion" db)
    then show_ads "" db
    else if get_bool "shouldShowGoogleAds" db
    then show_ads "interstitial" db
    else if get_bool "shouldShowAppOpenAds" db
    then show_ads "appOpen" db
    else succeed db

abbrev pub check_on : Bool → Call
check_on android = if android then ignore check_ads_enabled else succeed

unfoldable pub set_show_interstitial_ads : Bool → Bool → Call
set_show_interstitial_ads android enable =
    ignore (mutate (("shouldShowGoogleAds", bool enable) ∷ [])) then_ check_on android

unfoldable pub set_show_app_open_ads : Bool → Bool → Call
set_show_app_open_ads android enable =
    ignore (mutate (("shouldShowAppOpenAds", bool enable) ∷ [])) then_ check_on android

-- The case `hasAllNetworkPermssion` of `doInvokeMethod`.
unfoldable pub has_all_network_permission : Call
has_all_network_permission =
    mutate (("/hasAllNetworkPermssion", bool true) ∷ []) then_ ignore check_ads_enabled

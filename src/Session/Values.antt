-- ===== src/Session/Values.antt =====
-- The values of the session of internalsdk/session_model.go that are stored and read one at a time, a
-- definition for each method. The goroutine that `setLanguage` starts is a later call of
-- `payment_methods` of Session.Payment.
use lantern_client.Prelude.{
  String, Bool, true, false, [], ◌∷◌, ℤ, pos, not, ◌&&◌, if◌then◌else◌, ◌==◌,
}
use lantern_client.Session.Db.{
  int, Db, Call, Bandwidth, ServerInfo, bool, text, bandwidth, server_info, mutate, ignore, succeed,
  ◌then_◌, get_bool, get_text, get_int64, set_email,
}

unfoldable pub set_split_tunneling : Bool → Call
set_split_tunneling a = mutate (("/splitTunneling", bool a) ∷ [])

unfoldable pub split_tunneling_enabled : Db → Bool
split_tunneling_enabled db = get_bool "/splitTunneling" db

unfoldable pub set_country : String → Call
set_country a = mutate (("geo_country_code", text a) ∷ [])

unfoldable pub set_ip : String → Call
set_ip a = mutate (("ip_address", text a) ∷ [])

unfoldable pub ip_address : Db → String
ip_address db = get_text "ip_address" db

unfoldable pub set_language : String → Call
set_language a = mutate (("lang", text a) ∷ [])

unfoldable pub locale : Db → String
locale db = get_text "lang" db

unfoldable pub set_force_country : String → Call
set_force_country a = mutate (("forceCountry", text a) ∷ [])

unfoldable pub get_forced_country_code : Db → String
get_forced_country_code db = get_text "forceCountry" db

unfoldable pub set_dns_server : String → Call
set_dns_server a = mutate (("dns_detector", text a) ∷ [])

unfoldable pub get_dns_server : Db → String
get_dns_server db = get_text "dns_detector" db

unfoldable pub set_provider : String → Call
set_provider a = mutate (("provider", text a) ∷ [])

unfoldable pub provider : Db → String
provider db = get_text "provider" db

unfoldable pub set_device_id : String → Call
set_device_id a = mutate (("deviceid", text a) ∷ [])

unfoldable pub get_device_id : Db → String
get_device_id db = get_text "deviceid" db

unfoldable pub set_session_referral_code : String → Call
set_session_referral_code a = mutate (("referral", text a) ∷ [])

unfoldable pub code : Db → String
code db = get_text "referral" db

unfoldable pub set_replica_addr : String → Call
set_replica_addr a = ignore (mutate (("replicaAddr", text a) ∷ []))

unfoldable pub get_replica_addr : Db → String
get_replica_addr db = get_text "replicaAddr" db

unfoldable pub set_auth_enabled : Bool → Call
set_auth_enabled a = ignore (mutate (("authEnabled", bool a) ∷ []))

unfoldable pub set_chat_enabled : Bool → Call
set_chat_enabled a = ignore (mutate (("chatEnabled", bool a) ∷ []))

unfoldable pub chat_enable : Db → Bool
chat_enable db = get_bool "chatEnabled" db

unfoldable pub set_test_play_version : Bool → Call
set_test_play_version a = mutate (("testPlayVersion", bool a) ∷ [])

unfoldable pub set_has_config_fetched : Bool → Call
set_has_config_fetched a = ignore (mutate (("hasConfigFetched", bool a) ∷ []))

unfoldable pub set_has_proxy_fetched : Bool → Call
set_has_proxy_fetched a = ignore (mutate (("hasProxyFetched", bool a) ∷ []))

unfoldable pub set_on_success : Bool → Call
set_on_success a = ignore (mutate (("hasOnSuccess", bool a) ∷ []))

unfoldable pub set_store_version : Bool → Call
set_store_version a = mutate (("storeVersion", bool a) ∷ [])

unfoldable pub is_store_version : Db → Bool
is_store_version db = get_bool "storeVersion" db

unfoldable pub update_vpn_pref : Bool → Call
update_vpn_pref a = mutate (("pref_vpn", bool a) ∷ [])

unfoldable pub set_reseller_code : String → Call
set_reseller_code a = mutate (("resellercode", text a) ∷ [])

unfoldable pub user_level : Db → String
user_level db = get_text "userLevel" db

unfoldable pub get_time_zone : Db → String
get_time_zone db = get_text "timezone_id" db

unfoldable pub email : Db → String
email db = get_text "emailAddress" db

unfoldable pub currency : Db → String
currency db = get_text "currency_Code" db

unfoldable pub platform : Db → String
platform db = get_text "platform" db

unfoldable pub get_stripe_pub_key : Db → String
get_stripe_pub_key db = get_text "stripe_api_key" db

unfoldable pub is_pro_user : Db → Bool
is_pro_user db = get_bool "prouser" db

unfoldable pub get_user_first_visit : Db → Bool
get_user_first_visit db = get_bool "isFirstTime" db

unfoldable pub check_first_time_visit : Db → Bool
check_first_time_visit db = get_bool "isFirstTime" db

unfoldable pub get_bandwidth_limit : Db → ℤ
get_bandwidth_limit db = get_int64 "latest_bandwidth" db

unfoldable pub accept_terms : Call
accept_terms = mutate (("accepted_terms_version", int (pos 1)) ∷ [])

-- `isShowFirstTimeUserVisit`.
unfoldable pub show_first_time_user_visit : Call
show_first_time_user_visit = mutate (("isFirstTime", bool false) ∷ [])

unfoldable pub set_email_address : String → Call
set_email_address email = set_email email

unfoldable pub set_survey_link : String → Call
set_survey_link link = mutate ((link, bool true) ∷ [])

unfoldable pub check_if_survey_link_opened : String → Db → Bool
check_if_survey_link_opened link db = get_bool link db

-- In the mode for testing payments the identity is that of a user for tests.
unfoldable pub get_user_id : Db → ℤ
get_user_id db =
    if get_bool "paymentTestMode" db then pos 9007199254740992 else get_int64 "userid" db

unfoldable pub get_token : Db → String
get_token db =
    if get_bool "paymentTestMode" db
    then "OyzvkVvXk7OgOQcx-aZpK5uXx6gQl5i8BnOusUkc0fKpEZW6tc8uUvA"
    else get_text "token" db

unfoldable pub get_country_code : Db → String
get_country_code db =
    let forced = get_text "forceCountry" db in
    if not (forced == "") then forced else get_text "geo_country_code" db

unfoldable pub update_stats : ServerInfo → Bool → Call
update_stats info has_proxy =
    if not (info.city == "") && not (info.country == "") && not (info.country_code == "")
    then ignore (mutate (("hasSucceedingProxy", bool has_proxy) ∷ []))
      then_ mutate (("/server_info", server_info info) ∷ [])
    else succeed

unfoldable pub bandwidth_update : Bandwidth → Call
bandwidth_update b = mutate (("/bandwidth", bandwidth b) ∷ [])

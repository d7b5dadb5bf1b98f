-- ===== src/Session/Invoke.antt =====
-- The methods that the UI invokes on the session (`doInvokeMethod` of internalsdk/session_model.go), those
-- that only read left out. A method is its name with its arguments. What a method
-- starts in the background (the refresh of the user or of the plans) is a later method.
use lantern_client.Prelude.{◌>>=◌, String, Bool, true, false, Option, some, List, ℕ, ℤ, Dict}
use lantern_client.Pro.User.{UserDataResponse, Result}
use lantern_client.Session.Db.{Db, AppData, ignore, set_email, set_pro_user, set_user_id_and_token}
use lantern_client.Session.Account.{user_create, user_detail, sign_out}
use lantern_client.Session.Values.{
  set_force_country, set_dns_server, set_provider, set_language, accept_terms, set_store_version,
  set_device_id, update_stats, bandwidth_update, update_vpn_pref, show_first_time_user_visit,
  set_split_tunneling, set_test_play_version, set_survey_link,
}
use lantern_client.Session.Ads.{has_all_network_permission}
use lantern_client.Session.Apps.{update_apps_data, update_app_data}
use lantern_client.Session.Links.{
  Linked, LinkCode, link_code_request, link_code_redeem, link_code_approve, user_link_remove,
  validate_device_recovery_code,
}
use lantern_client.Session.Purchases.{
  submit_apple_pay_payment, submit_google_play_payment, submit_stripe_play_payment,
  redeem_reseller_code, test_provider_request, restore_purchase,
}
use lantern_client.Session.Payment.{MethodsAnswer, payment_methods}
use lantern_client.Session.Secrets.{
  Srp, Prepared, signup, complete_change_email, complete_recovery_by_email, delete_account,
}
use lantern_client.Session.Login.{LoginResponse, login}
use lantern_client.Session.Start.{Configurer, check_available_features}
use lantern_client.Session.Method.{Method}

-- What the servers answer, and what other code computes. Of `sign_up` the outer `none` is a panic of
-- the authentication client.
pub record Servers : Type 1 where
  pub srp : Srp
  pub format : ℤ → String
  pub print : ℕ → String
  pub key : String
  pub new_salt : List ℕ
  pub purchase : Dict String → Option String
  pub restore : Dict String → Option String
  pub user_data : Result UserDataResponse
  pub new_user : Result UserDataResponse
  pub sign_up : String → String → Option (Option (List ℕ))
  pub log_in : String → String → String → Option LoginResponse
  pub logged_out : Option Bool
  pub salts : String → Option (List ℕ)
  pub prepare : String → List ℕ → Option Prepared
  pub recover : String → String → List ℕ → List ℕ → Bool
  pub change : String → String → List ℕ → List ℕ → String → Bool
  pub delete : String → List ℕ → String → Bool
  pub link : String → Option LinkCode
  pub redeem : String → String → Option Linked
  pub approve : String → Bool
  pub remove : String → Bool
  pub validate : String → Option Linked
  pub methods : Option MethodsAnswer
  pub android : Bool
  pub configurer : Option Configurer
  pub auth_feature : String
  pub ads_feature : String
  pub apps_file : String → Option (List AppData)

-- `doInvokeMethod`; the flag says that the method returned no error, and `none` is a panic.
unfoldable pub invoke : Servers → Method → Db → Option (Bool × Db)
invoke s (Method.set_force_country t) db = some (set_force_country t db)
invoke s (Method.set_dns_server t) db = some (set_dns_server t db)
invoke s (Method.set_language t) db = some (set_language t db)
invoke s (Method.set_device_id t) db = some (set_device_id t db)
invoke s (Method.set_survey_link t) db = some (set_survey_link t db)
invoke s Method.set_provider db = some (set_provider "Test" db)
invoke s Method.set_email db = some (set_email "Test" db)
invoke s Method.accept_terms db = some (accept_terms db)
invoke s Method.has_all_network_permission db = some (has_all_network_permission db)
invoke s Method.set_first_time_visit db = some (show_first_time_user_visit db)
invoke s (Method.set_pro_user b) db = some (set_pro_user b db)
invoke s (Method.set_store_version b) db = some (set_store_version b db)
invoke s (Method.update_vpn_pref b) db = some (update_vpn_pref b db)
invoke s (Method.set_split_tunneling b) db = some (set_split_tunneling b db)
invoke s (Method.set_test_play_version b) db = some (set_test_play_version b db)
invoke s (Method.update_stats info b) db = some (update_stats info b db)
invoke s (Method.update_bandwidth info) db = some (bandwidth_update info db)
invoke s Method.update_payment_plans db = payment_methods s.print s.methods db
invoke s (Method.update_apps_data file) db = some (update_apps_data (s.apps_file file) db)
invoke s (Method.refresh_apps_list file) db = some (update_apps_data (s.apps_file file) db)
invoke s (Method.deny_app_access name) db = update_app_data name false db
invoke s (Method.allow_app_access name) db = update_app_data name true db
invoke s (Method.redeem_reseller_code email code) db =
    some (redeem_reseller_code s.purchase s.key email code db)
invoke s (Method.signup email password) db =
    s.sign_up email password >>= λ salt. some (signup email salt db)
invoke s (Method.submit_apple_pay_payment email plan token) db =
    some (submit_apple_pay_payment s.purchase s.key email plan token db)
invoke s (Method.submit_google_play_payment email plan token) db =
    some (submit_google_play_payment s.purchase s.key email plan token db)
invoke s (Method.submit_stripe_play_payment email plan token) db =
    some (submit_stripe_play_payment s.purchase s.key email plan token db)
invoke s (Method.restore_account email code provider) db =
    some (restore_purchase s.restore email code provider db)
invoke s (Method.test_provider_request email provider plan) db =
    some (test_provider_request s.purchase s.key email provider plan db)
invoke s (Method.complete_change_email old new password code) db =
    some (complete_change_email s.srp s.change s.new_salt old new password code db)
invoke s Method.request_link_code db = some (link_code_request s.link db)
invoke s Method.create_user db = some (user_create s.new_user db)
invoke s Method.update_user_detail db = some (ignore (user_detail s.format s.user_data) db)
invoke s Method.sign_out db = some (sign_out s.logged_out s.new_user db)
invoke s Method.redeem_link_code db = some (link_code_redeem s.format s.redeem s.user_data db)
invoke s (Method.set_user_id_and_token id token) db = some (set_user_id_and_token id token db)
invoke s (Method.login email password) db = some (login s.format s.log_in email password db)
invoke s (Method.complete_recovery_by_email email code password) db =
    some (complete_recovery_by_email s.srp s.recover s.new_salt email code password db)
invoke s (Method.delete_account password) db =
    some (delete_account s.srp s.salts s.prepare s.delete s.new_user password db)
invoke s (Method.approve_device code) db =
    some (link_code_approve s.format (s.approve code) s.user_data db)
invoke s (Method.remove_device device) db =
    some (user_link_remove s.format (s.remove device) s.user_data db)
invoke s (Method.validate_device_recovery_code code) db =
    some (validate_device_recovery_code s.format s.validate code s.user_data db)
invoke s Method.check_available_features db =
    check_available_features s.configurer s.auth_feature s.ads_feature s.android db

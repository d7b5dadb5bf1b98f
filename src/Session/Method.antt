-- ===== src/Session/Method.antt =====
-- The names of the methods of the session (`doInvokeMethod` of internalsdk/session_model.go) that change its
-- state, with their arguments.
use lantern_client.Prelude.{String, Bool, ℤ}
use lantern_client.Session.Db.{Bandwidth, ServerInfo}

pub data Method : Type 0 where
  set_force_country set_dns_server set_language set_device_id set_survey_link : String → Method
  set_provider set_email accept_terms has_all_network_permission set_first_time_visit : Method
  set_pro_user set_store_version update_vpn_pref set_split_tunneling set_test_play_version :
      Bool → Method
  update_stats : ServerInfo → Bool → Method
  update_bandwidth : Bandwidth → Method
  update_payment_plans check_available_features : Method
  update_apps_data refresh_apps_list : String → Method
  deny_app_access allow_app_access : String → Method
  redeem_reseller_code signup : String → String → Method
  submit_apple_pay_payment submit_google_play_payment submit_stripe_play_payment :
      String → String → String → Method
  restore_account test_provider_request : String → String → String → Method
  complete_change_email : String → String → String → String → Method
  request_link_code : Method
  create_user update_user_detail sign_out redeem_link_code : Method
  set_user_id_and_token : ℤ → String → Method
  login : String → String → Method
  complete_recovery_by_email : String → String → String → Method
  delete_account approve_device remove_device validate_device_recovery_code : String → Method

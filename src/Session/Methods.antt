-- ===== src/Session/Methods.antt =====
-- The methods that the UI invokes on the session of internalsdk/session_model.go, and the identity.
use lantern_client.Prelude.{
  ◌≡◌, refl, String, Bool, true, false, ◌||◌, Option, none, some, [], ◌∷◌, ◌⊎◌, pos, inl, inr,
  Option-cases, ◌==◌, to_lower,
}
use lantern_client.Session.Db.{
  Db, AppData, app, bool, int, text, bytes, bandwidth, mutate, ignore, set_email, save_user_salt,
  get_text,
}
use lantern_client.Session.Values.{
  set_force_country, set_dns_server, set_provider, set_language, accept_terms, set_store_version,
  set_device_id, bandwidth_update, update_vpn_pref, show_first_time_user_visit, set_split_tunneling,
  set_test_play_version, set_survey_link,
}
use lantern_client.Session.Apps.{app_path, get_app, allow, update_app_data}
use lantern_client.Session.Links.{link_code_request}
use lantern_client.Session.Purchases.{
  create_purchase_data, request, submit_apple_pay_payment, submit_google_play_payment,
  submit_stripe_play_payment, test_provider_request, restore_purchase,
}
use lantern_client.Session.Secrets.{new_client, complete_change_email, complete_recovery_by_email}
use lantern_client.Session.Method.{Method}
use lantern_client.Session.Invoke.{Servers, invoke}
use lantern_client.Session.Frame.{Same, Keeps, put-Keeps, apps_path-ne}
use lantern_client.Session.Unmoved.{
  update_stats-Keeps, permission-Keeps, apps_data-Keeps, pro-Keeps, paid-Keeps, answered-Keeps,
  restored-Keeps,
}
use lantern_client.Session.Outside.{
  Bounded, IsHoled, payment_methods-Bounded, email-Keeps, redeem-Keeps, signup-Keeps,
  verified-Keeps, code_stored-Keeps, features-Bounded,
}

-- The methods that set the identity or refresh the user; a link of a survey that is the name of one of the
-- two paths counts as one.
unfoldable pub concerns_identity : Method → Bool
concerns_identity (Method.set_survey_link link) = (link == "userid") || (link == "token")
concerns_identity Method.create_user = true
concerns_identity Method.update_user_detail = true
concerns_identity Method.sign_out = true
concerns_identity Method.redeem_link_code = true
concerns_identity (Method.set_user_id_and_token _ _) = true
concerns_identity (Method.login _ _) = true
concerns_identity (Method.delete_account _) = true
concerns_identity (Method.approve_device _) = true
concerns_identity (Method.remove_device _) = true
concerns_identity (Method.validate_device_recovery_code _) = true
concerns_identity _ = false

-- When a method panics: access to an app that is not stored, a sign-up at which the authentication client
-- panics, a null in the payment methods of the server, and features without a configuration.
unfoldable pub Panics : Servers → Method → Db → Type 0
Panics s (Method.deny_app_access name) db = get_app name db ≡ none
Panics s (Method.allow_app_access name) db = get_app name db ≡ none
Panics s (Method.signup email password) db = s.sign_up email password ≡ none
Panics s Method.update_payment_plans db = IsHoled s.methods
Panics s Method.check_available_features db = s.configurer ≡ none
Panics s _ db = ⊥

unfoldable pub Outcome : Servers → Method → Db → Option (Bool × Db) → Type 0
Outcome s method db o = Bounded (Panics s method db) db o

survey-Keeps :
    (link : String)
    → ((link == "userid") || (link == "token")) ≡ false
    → Keeps (set_survey_link link)
unfolding set_survey_link
survey-Keeps link h =
    put-Keeps link (bool true) (or_left (link == "userid") (link == "token") h)
      (or_right (link == "userid") (link == "token") h)
  where
    or_left : (a b : Bool) → (a || b) ≡ false → a ≡ false
    or_left true b e = e
    or_left false b e = refl

    or_right : (a b : Bool) → (a || b) ≡ false → b ≡ false
    or_right true b e = absurd (cc)
    or_right false b e = e

allow-Same :
    (name : String) (allowed : Bool) (o : Option AppData) (db : Db)
    → (allow name allowed o db ≡ none × (o ≡ none))
      ⊎ ((r : Bool × Db) × (allow name allowed o db ≡ some r) × Same db r)
unfolding allow
allow-Same name allowed none db = inl (refl, refl)
allow-Same name allowed (some a) db =
    let away = apps_path-ne name in
    let new = app (record a { allowed_access = allowed }) in
    inr
      (mutate ((app_path name, new) ∷ []) db, refl, put-Keeps (app_path name) new away.0 away.1 db)

allow-Outcome :
    (s : Servers) (method : Method) (name : String) (allowed : Bool) (db : Db)
    → (get_app name db ≡ none → Panics s method db)
    → Outcome s method db (update_app_data name allowed db)
unfolding Outcome update_app_data
allow-Outcome s method name allowed db panics =
    elim (allow-Same name allowed (get_app name db) db) [
      | inl (e, missing) ↦ rw (e) (panics missing)
      | inr (r, e, same) ↦ rw (e) same
    ]

-- Whichever transactions fail and whatever the servers answer, a method that neither sets the identity nor
-- refreshes the user leaves the user id and the token as they are, or panics. It panics only where
-- it gives or takes the access of an app that is not stored, where the authentication client panics
-- at a sign-up, where the server's payment methods have a null among the plans or among the
-- methods and providers for Android, or where features are looked up without a configuration.
pub invoke-Outcome :
    (s : Servers) (method : Method) (db : Db)
    → concerns_identity method ≡ false
    → Outcome s method db (invoke s method db)
unfolding Outcome Panics invoke concerns_identity accept_terms bandwidth_update
    complete_change_email complete_recovery_by_email link_code_request restore_purchase
    save_user_salt set_device_id set_dns_server set_force_country set_language set_provider
    set_split_tunneling set_store_version set_test_play_version show_first_time_user_visit
    submit_apple_pay_payment submit_google_play_payment submit_stripe_play_payment
    test_provider_request update_vpn_pref
invoke-Outcome s (Method.set_force_country t) db h = put-Keeps "forceCountry" (text t) refl refl db
invoke-Outcome s (Method.set_dns_server t) db h = put-Keeps "dns_detector" (text t) refl refl db
invoke-Outcome s (Method.set_language t) db h = put-Keeps "lang" (text t) refl refl db
invoke-Outcome s (Method.set_device_id t) db h = put-Keeps "deviceid" (text t) refl refl db
invoke-Outcome s (Method.set_survey_link t) db h = survey-Keeps t h db
invoke-Outcome s Method.set_provider db h = put-Keeps "provider" (text "Test") refl refl db
invoke-Outcome s Method.set_email db h = email-Keeps "Test" db
invoke-Outcome s Method.accept_terms db h =
    put-Keeps "accepted_terms_version" (int (pos 1)) refl refl db
invoke-Outcome s Method.has_all_network_permission db h = permission-Keeps db
invoke-Outcome s Method.set_first_time_visit db h =
    put-Keeps "isFirstTime" (bool false) refl refl db
invoke-Outcome s (Method.set_pro_user b) db h = pro-Keeps b db
invoke-Outcome s (Method.set_store_version b) db h = put-Keeps "storeVersion" (bool b) refl refl db
invoke-Outcome s (Method.update_vpn_pref b) db h = put-Keeps "pref_vpn" (bool b) refl refl db
invoke-Outcome s (Method.set_split_tunneling b) db h =
    put-Keeps "/splitTunneling" (bool b) refl refl db
invoke-Outcome s (Method.set_test_play_version b) db h =
    put-Keeps "testPlayVersion" (bool b) refl refl db
invoke-Outcome s (Method.update_stats info b) db h = update_stats-Keeps info b db
invoke-Outcome s (Method.update_bandwidth info) db h =
    put-Keeps "/bandwidth" (bandwidth info) refl refl db
invoke-Outcome s Method.update_payment_plans db h = payment_methods-Bounded s.print s.methods db
invoke-Outcome s (Method.update_apps_data file) db h = apps_data-Keeps (s.apps_file file) db
invoke-Outcome s (Method.refresh_apps_list file) db h = apps_data-Keeps (s.apps_file file) db
invoke-Outcome s (Method.deny_app_access name) db h =
    allow-Outcome s (Method.deny_app_access name) name false db (λ e. e)
invoke-Outcome s (Method.allow_app_access name) db h =
    allow-Outcome s (Method.allow_app_access name) name true db (λ e. e)
invoke-Outcome s (Method.redeem_reseller_code email code) db h =
    redeem-Keeps s.purchase s.key email code db
invoke-Outcome s (Method.signup email password) db h =
    elim (Option-cases (s.sign_up email password)) [
      | inl e ↦ rw e refl
      | inr (salt, e) ↦ rw e (signup-Keeps email salt db)
    ]
invoke-Outcome s (Method.submit_apple_pay_payment email plan token) db h =
    paid-Keeps s.purchase s.key
      (request s.purchase s.key
        (create_purchase_data s.key (get_text "model" db) email "applepay" "" token plan))
      db
invoke-Outcome s (Method.submit_google_play_payment email plan token) db h =
    paid-Keeps s.purchase s.key
      (request s.purchase s.key
        (create_purchase_data s.key (get_text "model" db) email "googleplay" "" token plan))
      db
invoke-Outcome s (Method.submit_stripe_play_payment email plan token) db h =
    paid-Keeps s.purchase s.key
      (request s.purchase s.key
        (create_purchase_data s.key (get_text "model" db) email "stripe" "" token plan))
      db
invoke-Outcome s (Method.restore_account email code provider) db h =
    restored-Keeps
      (s.restore (
        ("verified_email", email)
        ∷ ("provider", provider)
        ∷ ("deviceName", get_text "device" db)
        ∷ ("email_verification_code", code)
        ∷ []))
      db
invoke-Outcome s (Method.test_provider_request email provider plan) db h =
    answered-Keeps s.purchase s.key
      (s.purchase (
        ("idempotencyKey", s.key)
        ∷ ("provider", provider)
        ∷ ("email", email)
        ∷ ("plan", plan)
        ∷ []))
      db
invoke-Outcome s (Method.complete_change_email old new password code) db h =
    verified-Keeps (s.srp.verifier (new_client s.srp password new s.new_salt))
      (λ v. s.change old new s.new_salt v code) (set_email new) (email-Keeps new) db
invoke-Outcome s Method.request_link_code db h =
    code_stored-Keeps (s.link (get_text "device" db)) db
invoke-Outcome s Method.create_user db h = absurd (cc)
invoke-Outcome s Method.update_user_detail db h = absurd (cc)
invoke-Outcome s Method.sign_out db h = absurd (cc)
invoke-Outcome s Method.redeem_link_code db h = absurd (cc)
invoke-Outcome s (Method.set_user_id_and_token id token) db h = absurd (cc)
invoke-Outcome s (Method.login email password) db h = absurd (cc)
invoke-Outcome s (Method.complete_recovery_by_email email code password) db h =
    verified-Keeps (s.srp.verifier (new_client s.srp password (to_lower email) s.new_salt))
      (λ v. s.recover (to_lower email) code s.new_salt v) (ignore (save_user_salt s.new_salt))
      (put-Keeps "user_salt" (bytes s.new_salt) refl refl) db
invoke-Outcome s (Method.delete_account password) db h = absurd (cc)
invoke-Outcome s (Method.approve_device code) db h = absurd (cc)
invoke-Outcome s (Method.remove_device device) db h = absurd (cc)
invoke-Outcome s (Method.validate_device_recovery_code code) db h = absurd (cc)
invoke-Outcome s Method.check_available_features db h =
    features-Bounded s.configurer s.auth_feature s.ads_feature s.android db

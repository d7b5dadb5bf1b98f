-- ===== src/Tests/Session.antt =====
-- Runs of the session of internalsdk/session_model.go.
use lantern_client.Prelude.{
  ◌≡◌, refl, Bool, Option, List, ℕ, Dict, lookup, insert, insert_all, split, to_lower,
  if◌then◌else◌, String, true, false, none, some, [], ◌∷◌, ℤ, pos, ◌==◌,
}
use lantern_client.Pro.User.{User, UserDataResponse, Result, ok}
use lantern_client.Session.Db.{Db, text, int64}
use lantern_client.Session.Account.{cache_user_detail, sign_out}
use lantern_client.Session.Identity.{Replaced, cache_user_detail-Replaced}
use lantern_client.Session.SignOut.{SignedOut, sign_out-SignedOut}
use lantern_client.Session.Account.{logged_in, device_limit_flow}
use lantern_client.Session.SignIn.{logged_in-Replaced}
use lantern_client.Session.Db.{AppData, app, mutate, get_bool, set_pro_user}
use lantern_client.Session.Stored.{will_fail}
use lantern_client.Session.Values.{email}
use lantern_client.Session.Purchases.{
  create_purchase_data, submit_apple_pay_payment, submit_google_play_payment,
  submit_stripe_play_payment, restore_purchase,
}
use lantern_client.Session.Paid.{IsPurchase, IsRestore, purchases_lem}
use lantern_client.Session.Apps.{get_app}
use lantern_client.Session.Secrets.{Srp, Prepared, get_user_salt, delete_account}
use lantern_client.Session.Method.{Method}
use lantern_client.Session.Invoke.{Servers, invoke}
use lantern_client.Session.Methods.{concerns_identity, Outcome, invoke-Outcome}
use lantern_client.Pro.Client.{Reply, WithStatus}
use lantern_client.Session.Redeemed.{Redeemed, by_client, redeem_reseller_code-Redeemed}
use lantern_client.Session.Purchases.{redeem_reseller_code}
use lantern_client.Session.Deleted.{Deletion, delete_account-Deletion}

abbrev ada : User
ada = record {
  user_id = pos 5;
  token = "t";
  referral = "r";
  expiration = pos 100;
  email = "a@b";
  user_level = "pro";
  user_status = "active";
  devices = record { id = "d2"; name = "phone"; created = pos 1 } ∷ [];
}

-- The second transaction fails, which is the one of the referral code.
abbrev before : Db
before = record {
  m = ("userid", int64 (pos 1)) ∷ ("token", text "old") ∷ ("deviceid", text "d1") ∷ [];
  faults = false ∷ true ∷ [];
}

abbrev date : ℤ → String
date z = "01/02/2024"

cache_user_detail-Replaced_example : Replaced (pos 5) "t" before (cache_user_detail date ada before)
cache_user_detail-Replaced_example = cache_user_detail-Replaced date ada before

abbrev created : Result UserDataResponse
created = ok (record { error = none; user = some ada })

abbrev signed_in : Db
signed_in = record { m = before.m; faults = [] }

sign_out-SignedOut_example : SignedOut created signed_in (sign_out (some true) created signed_in)
sign_out-SignedOut_example = sign_out-SignedOut (some true) created signed_in

logged_in-Replaced_example :
    Replaced ada.user_id ada.token before (logged_in date "a@b" [] ada before)
    × Replaced ada.user_id ada.token before
        (device_limit_flow ada.devices ada.user_id ada.token before)
logged_in-Replaced_example = logged_in-Replaced date "a@b" [] ada ada.devices before

abbrev orders : Dict String → Option String
orders data_ = if has_token (lookup "token" data_) then some "ok" else none
  where
    has_token : Option String → Bool
    has_token none = false
    has_token (some t) = t == "tok"

purchases_lem_example :
    IsPurchase orders "1" "applepay" "a@b" "1y-usd-10" "tok"
      (submit_apple_pay_payment orders "1" "a@b" "1y-usd-10" "tok")
    × IsPurchase orders "1" "googleplay" "a@b" "1y-usd-10" "tok"
        (submit_google_play_payment orders "1" "a@b" "1y-usd-10" "tok")
    × IsPurchase orders "1" "stripe" "a@b" "1y-usd-10" "tok"
        (submit_stripe_play_payment orders "1" "a@b" "1y-usd-10" "tok")
    × IsRestore orders "a@b" "123" "stripe" (restore_purchase orders "a@b" "123" "stripe")
purchases_lem_example = purchases_lem orders orders "1" "a@b" "1y-usd-10" "tok" "123" "stripe"

bought_test :
    get_bool "prouser" (submit_stripe_play_payment orders "1" "a@b" "1y-usd-10" "tok" signed_in).1
    ≡ true
unfolding submit_stripe_play_payment create_purchase_data split mutate insert_all insert lookup
    set_pro_user get_bool
bought_test = refl

abbrev browser : AppData
browser = record { package_name = "b"; name = "Browser"; icon = []; allowed_access = false }

abbrev with_browser : Db
with_browser = record { m = ("/appsData/b", app browser) ∷ []; faults = false ∷ true ∷ [] }

browser_stored : get_app "b" with_browser ≡ some browser
unfolding get_app lookup
browser_stored = refl

first_works : will_fail with_browser ≡ false
unfolding will_fail
first_works = refl

-- A client whose key is the password with the address behind it, and whose proof is empty.
abbrev plain_srp : Srp
plain_srp = record {
  Key = String;
  client = λ key salt. key;
  public = λ key. [];
  verifier = λ key. some [];
  set_others_public = λ key b. true;
  has_key = λ key. true;
  good_server_proof = λ key salt address proof. key == "pwa@b";
  client_proof = λ key. some [];
}

abbrev prepared : String → List ℕ → Option Prepared
prepared address a = some (record { b = []; proof = [] })

abbrev deletes : String → List ℕ → String → Bool
deletes address proof device = device == "d1"

abbrev salt_of : String → Option (List ℕ)
salt_of address = some []

abbrev with_email : Db
with_email = record { m = ("emailAddress", text "a@b") ∷ before.m; faults = [] }

delete_account-Deletion_example :
    Deletion plain_srp prepared deletes created "pw"
      (get_user_salt salt_of (to_lower (email with_email)) with_email)
      with_email
      (delete_account plain_srp salt_of prepared deletes created "pw" with_email)
delete_account-Deletion_example =
    delete_account-Deletion plain_srp prepared deletes created "pw" with_email salt_of

abbrev servers : Servers
servers = record {
  srp = plain_srp;
  format = date;
  print = λ n. "0";
  key = "1";
  new_salt = [];
  purchase = orders;
  restore = orders;
  user_data = created;
  new_user = created;
  sign_up = λ address password. if password == "" then none else some (some []);
  log_in = λ address password device. none;
  logged_out = some true;
  salts = salt_of;
  prepare = prepared;
  recover = λ address code salt v. true;
  change = λ old new salt v code. true;
  delete = deletes;
  link = λ device. none;
  redeem = λ device code. none;
  approve = λ code. true;
  remove = λ device. true;
  validate = λ code. none;
  methods = none;
  android = true;
  configurer = none;
  auth_feature = "auth";
  ads_feature = "ads";
  apps_file = λ path. some (browser ∷ []);
}

signup_aside : concerns_identity (Method.signup "a@b" "pw") ≡ false
unfolding concerns_identity
signup_aside = refl

invoke-Outcome_example :
    Outcome servers
      (Method.signup "a@b" "pw")
      before
      (invoke servers (Method.signup "a@b" "pw") before)
invoke-Outcome_example = invoke-Outcome servers (Method.signup "a@b" "pw") before signup_aside

abbrev sells : String → Dict String → Option (Reply (WithStatus ℕ))
sells path req = some (record { base = none; body = record { status = "ok"; value = 0 } })

redeem_reseller_code-Redeemed_example :
    Redeemed "en" sells "1"
      (to_lower "A@b")
      "code"
      before
      (redeem_reseller_code (by_client "en" sells "1") "1" "A@b" "code" before)
redeem_reseller_code-Redeemed_example =
    redeem_reseller_code-Redeemed "en" sells "1" "A@b" "code" before

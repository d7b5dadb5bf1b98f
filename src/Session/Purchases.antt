-- ===== src/Session/Purchases.antt =====
-- The purchases of internalsdk/session_model.go, with the request that `createPurchaseData` of
-- internalsdk/utils.go makes. `key` is the time, as a text; `purchase` and `restore` stand for the
-- requests to the server: they give the status of the answer, or `none` for an error.
use lantern_client.Prelude.{
  String, Bool, true, not, ◌&&◌, Option, none, some, List, [], ◌∷◌, ◌++◌, Dict, if◌then◌else◌, ◌==◌,
  to_lower, split,
}
use lantern_client.Session.Db.{Db, Call, fail, ◌then_◌, ignore, get_text, set_email, set_pro_user}
use lantern_client.Session.Values.{set_reseller_code}

-- The currency: the second of the three parts of the plan's id.
unfoldable pub currency_of : List String → Option String
currency_of (a ∷ cur ∷ c ∷ []) = some cur
currency_of _ = none

unfoldable pub with_plan : Dict String → String → String → Option String → Option (Dict String)
with_plan data_ token plan none = none
with_plan data_ token plan (some cur) =
    some (data_ ++ ("token", token) ∷ ("plan", plan) ∷ ("currency", cur) ∷ [])

purchase_fields : Dict String → String → String → String → String → Option (Dict String)
unfolding currency_of with_plan
purchase_fields data_ provider reseller_code token plan =
    if provider == "reseller-code"
    then some (data_ ++ ("resellerCode", reseller_code) ∷ [])
    else if provider == "googleplay"
    then with_plan data_ token plan (currency_of (split 45 plan))
    else if provider == "applepay"
    then with_plan data_ token plan (currency_of (split 45 plan))
    else if provider == "stripe"
    then with_plan data_ token plan (currency_of (split 45 plan))
    else some data_

-- `createPurchaseData`, for the device of that name; `none` is an error.
unfoldable pub create_purchase_data :
    String → String → String → String → String → String → String → Option (Dict String)
unfolding purchase_fields
create_purchase_data key device email provider reseller_code token plan =
    if email == "" && not (provider == "applepay")
    then none
    else purchase_fields
        (("idempotencyKey", key)
          ∷ ("provider", provider)
          ∷ ("email", email)
          ∷ ("deviceName", device)
          ∷ [])
        provider reseller_code token plan

module _ (purchase : Dict String → Option String) (key : String) where
  -- The answer must be there, and be "ok".
  unfoldable pub paid : Option String → Call
  paid none = fail
  paid (some status) = if not (status == "ok") then fail else set_pro_user true

  unfoldable pub request : Option (Dict String) → Option String
  request none = none
  request (some data_) = purchase data_

  -- `submitApplePayPayment`.
  unfoldable pub submit_apple_pay_payment : String → String → String → Call
  unfolding paid request
  submit_apple_pay_payment email plan token db =
      paid (request (create_purchase_data key (get_text "model" db) email "applepay" "" token plan))
        db

  -- `submitGooglePlayPayment`.
  unfoldable pub submit_google_play_payment : String → String → String → Call
  unfolding paid request
  submit_google_play_payment email plan token db =
      paid
        (request (create_purchase_data key (get_text "model" db) email "googleplay" "" token plan))
        db

  -- `submitStripePlayPayment`.
  unfoldable pub submit_stripe_play_payment : String → String → String → Call
  unfolding paid request
  submit_stripe_play_payment email plan token db =
      paid (request (create_purchase_data key (get_text "model" db) email "stripe" "" token plan))
        db

  -- Any answer will do.
  unfoldable pub answered : Option String → Call
  answered none = fail
  answered (some status) = set_pro_user true

  unfoldable pub redeem_request : String → String → Call
  unfolding answered request
  redeem_request email code db =
      answered
        (request (create_purchase_data key (get_text "model" db) email "reseller-code" code "" ""))
        db

  -- `redeemResellerCode`, which tests the error of `setEmail` in place of that of `setResellerCode`.
  unfoldable pub redeem_reseller_code : String → String → Call
  unfolding redeem_request
  redeem_reseller_code email code =
      set_email (to_lower email)
      then_ ignore (set_reseller_code code)
      then_ redeem_request (to_lower email) code

  -- `testProviderRequest`.
  unfoldable pub test_provider_request : String → String → String → Call
  unfolding answered
  test_provider_request email provider plan = answered (
      purchase
        (("idempotencyKey", key) ∷ ("provider", provider) ∷ ("email", email) ∷ ("plan", plan) ∷ []))

-- The error of `SetProUser` is dropped.
unfoldable pub restored : Option String → Call
restored none = fail
restored (some status) = if not (status == "ok") then fail else ignore (set_pro_user true)

-- `restorePurchase`.
unfoldable pub restore_purchase : (Dict String → Option String) → String → String → String → Call
unfolding restored
restore_purchase restore email code provider db =
    restored
      (restore (
        ("verified_email", email)
        ∷ ("provider", provider)
        ∷ ("deviceName", get_text "device" db)
        ∷ ("email_verification_code", code)
        ∷ []))
      db

-- `generatePaymentRedirectUrl`, given what the server answers to a plan, a provider, an email and a device.
unfoldable pub generate_payment_redirect_url :
    (String → String → String → String → Option String)
    → String
    → String
    → String
    → Db
    → Option String
generate_payment_redirect_url redirect email plan provider db =
    redirect plan provider email (get_text "model" db)

-- `applyRefCode`, given whether the server attaches the code.
unfoldable pub apply_ref_code : (String → Bool) → String → Bool
apply_ref_code attach code = attach code

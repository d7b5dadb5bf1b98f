-- ===== src/Pro/Client.antt =====
-- The requests of internalsdk/pro/pro.go. `send` stands for the request itself (a path and its
-- parameters) and for the decoding of the answer: `none` is an error of either. `locale` is the
-- language of the user.
use lantern_client.Prelude.{
  String, Bool, true, false, not, ◌&&◌, Option, none, some, List, [], ◌∷◌, ◌++◌, ℤ, pos, Dict,
  lookup, if◌then◌else◌, ◌==◌, split, to_lower,
}

-- `protos.BaseResponse`.
pub record Base : Type 0 where
  pub status : String
  pub error : String
  pub error_id : String

-- An answer with its `BaseResponse`, which is nil where the answer has none of its fields.
pub record Reply (A : Type 0) : Type 0 where
  pub base : Option Base
  pub body : A

-- `params` with the locale.
abbrev pub default_params : String → Dict String
default_params locale = ("locale", locale) ∷ []

-- `BaseResponse` is there and its error is not empty.
abbrev pub has_error : Option Base → Bool
has_error none = false
has_error (some b) = not (b.error == "")

abbrev pub is_present : Option Base → Bool
is_present none = false
is_present (some b) = true

-- Where the test says that the answer is an error, it is one.
abbrev pub unless : {A : Type 0} → (A → Bool) → Option A → Option A
unless bad none = none
unless bad (some a) = if bad a then none else some a

-- A status of its own beside the `BaseResponse` (a purchase, a redeemed code).
pub record WithStatus (A : Type 0) : Type 0 where
  pub status : String
  pub value : A

abbrev pub status_fails : {A : Type 0} → Reply (WithStatus A) → Bool
status_fails r = is_present r.base && not (r.body.status == "ok")

base_fails : Option Base → Bool
base_fails none = false
base_fails (some b) = not (b.status == "ok")

module _ (locale : String) where
  unfoldable pub email_exists : (String → Dict String → Option Base) → String → Option Base
  email_exists send email = send "/email-exists" (("email", email) ∷ [])

  unfoldable pub email_request : (String → Dict String → Option String) → String → Option String
  email_request send email =
      send "/user-email-request" (default_params locale ++ ("email", email) ∷ [])

  -- `DeviceRemove`.
  unfoldable pub device_remove :
      {A : Type 0} → (String → Dict String → Option A) → String → Option A
  device_remove send id = send "/user-link-remove" (default_params locale ++ ("deviceID", id) ∷ [])

  refused : Base → Bool
  refused b = not (b.error == "") && not (b.status == "ok")

  -- `DeviceAdd`.
  unfoldable pub device_add : (String → Dict String → Option Base) → String → Option Base
  unfolding refused
  device_add send name =
      unless refused (send "/device-add" (default_params locale ++ ("deviceName", name) ∷ []))

  -- `LinkCodeApprove`.
  unfoldable pub link_code_approve : (String → Dict String → Option Base) → String → Option Base
  unfolding refused
  link_code_approve send code =
      unless refused (send "/link-code-approve" (default_params locale ++ ("code", code) ∷ []))

  -- `LinkCodeRequest`.
  unfoldable pub link_code_request :
      {A : Type 0} → (String → Dict String → Option A) → String → Option A
  link_code_request send name =
      if name == ""
      then none
      else send "/link-code-request" (("deviceName", name) ∷ ("locale", locale) ∷ [])

  -- `LinkCodeRedeem`.
  unfoldable pub link_code_redeem :
      {A : Type 0}
      → (String → Dict String → Option (Reply (WithStatus A)))
      → String
      → String
      → Option (Reply (WithStatus A))
  link_code_redeem send name code =
      unless status_fails (send "/link-code-redeem" (("deviceName", name) ∷ ("code", code) ∷ []))

  -- `UserLinkCodeRequest`; `device` is the id of the device.
  unfoldable pub user_link_code_request :
      {A : Type 0} → (String → Dict String → Option (Reply A)) → String → String → Option (Reply A)
  unfolding base_fails
  user_link_code_request send device email =
      unless (λ r. base_fails r.base)
        (send "/user-link-request"
          (("deviceName", device) ∷ ("email", email) ∷ ("locale", locale) ∷ []))

  -- `UserLinkValidate`.
  unfoldable pub user_link_validate :
      {A : Type 0} → (String → Dict String → Option (WithStatus A)) → String → Option (WithStatus A)
  user_link_validate send code =
      unless (λ r. not (r.status == "ok"))
        (send "/user-link-validate" (("code", code) ∷ ("locale", locale) ∷ []))

  -- `PurchaseRequest`.
  unfoldable pub purchase_request :
      {A : Type 0}
      → (String → Dict String → Option (Reply (WithStatus A)))
      → Dict String
      → Option (Reply (WithStatus A))
  purchase_request send req = unless status_fails (send "/purchase" req)

  -- `RedeemResellerCode`.
  unfoldable pub redeem_reseller_code :
      (String → Dict String → Option Base) → Dict String → Option Base
  redeem_reseller_code send req = unless (λ b. not (b.error == "")) (send "/purchase" req)

  -- `RestorePurchase`; the answer is its status.
  unfoldable pub restore_purchase :
      (String → Dict String → Option String) → Dict String → Option String
  restore_purchase send req = unless (λ status. not (status == "ok")) (send "/restore-purchase" req)

  -- `ReferralAttach`.
  unfoldable pub referral_attach : (String → Dict String → Option Base) → String → Option Base
  referral_attach send code =
      unless (λ b. not (b.status == "ok"))
        (send "/referral-attach" (default_params locale ++ ("code", code) ∷ []))

-- A plan with its prices, in hundredths by the currency, and the texts of its costs.
pub record Plan : Type 0 where
  pub id : String
  pub expected_monthly_price : Dict ℤ
  pub price : Dict ℤ
  pub one_month_cost : String
  pub total_cost : String
  pub total_cost_billed_one_time : String

price_of : Option ℤ → ℤ
price_of none = pos 0
price_of (some p) = p

module _ (money : String → ℤ → String) (billed : String → String) where
  costs : String → Plan → Plan
  costs cur p = record p {
    one_month_cost = money cur (price_of (lookup (to_lower cur) p.expected_monthly_price));
    total_cost = money cur (price_of (lookup (to_lower cur) p.price));
    total_cost_billed_one_time = billed (money cur (price_of (lookup (to_lower cur) p.price)));
  }

  with_currency : List String → Plan → Plan
  with_currency (a ∷ cur ∷ c ∷ []) p = costs cur p
  with_currency _ p = p

  -- The loop over the plans: `money` stands for the text of an amount of hundredths of a currency, and
  -- `billed` puts its two words behind a text. A plan whose id does not have three parts is left;
  -- one that is null, at which the source panics, is left out.
  unfoldable pub with_costs : List Plan → List Plan
  unfolding with_currency costs price_of
  with_costs [] = []
  with_costs (p ∷ ps) = with_currency (split 45 p.id) p ∷ with_costs ps

  -- `PaymentMethodsV4`.
  unfoldable pub payment_methods_v4 :
      (String → Dict String → Option (Reply (List Plan))) → String → Option (Reply (List Plan))
  payment_methods_v4 send locale =
      with_all (unless (λ r. has_error r.base) (send "/plans-v4" (default_params locale)))
    where
      with_all : Option (Reply (List Plan)) → Option (Reply (List Plan))
      with_all none = none
      with_all (some r) = some (record r { body = with_costs r.body })

-- ===== src/Desktop/Exports.antt =====
-- What desktop/lib.go exports to the UI, as far as it does more than one call. `none` is a panic; what
-- the Pro server answers is an argument, `none` where the request fails.
use lantern_client.Prelude.{
  String, Bool, true, false, ◌&&◌, Option, none, some, ℤ, pos, negsuc, ltb, if◌then◌else◌, ◌==◌,
  ◌>>=◌, ◌+◌,
}
use lantern_client.Settings.Store.{Settings, set_user_id_and_token}
use lantern_client.Settings.Accessors.{set_expiration, set_pro_user, set_language, get_language}
use lantern_client.Desktop.Users.{App, CachedUser, user_data, is_pro_user_fast}

unfoldable pub is_before : ℤ → ℤ → Bool
is_before (pos m) (pos n) = ltb m n
is_before (negsuc m) (pos n) = true
is_before (pos m) (negsuc n) = false
is_before (negsuc m) (negsuc n) = ltb n m

abbrev with_settings : Bool → App → Settings → Bool × App
with_settings answer app s = (answer, record app { settings = s })

module _ (format : ℤ → String) where
  compared : CachedUser → Option (Option ℤ) → App → Option (Bool × App)
  compared u none app = some (true, app)
  compared u (some none) app = none
  compared u (some (some expiration)) app =
      if is_before u.expiration expiration
      then (set_expiration format expiration app.settings >>= λ s. some (with_settings true app s))
      else some (false, app)

  updated_from : Option CachedUser → Option (Option ℤ) → App → Option (Bool × App)
  unfolding compared
  updated_from none answer app = some (false, app)
  updated_from (some u) answer app = compared u answer app

  -- `hasPlanUpdatedOrBuy`, given the expiration of the user of the answer, which can have none.
  unfoldable pub has_plan_updated_or_buy : Option (Option ℤ) → App → Option (Bool × App)
  unfolding updated_from
  has_plan_updated_or_buy answer app = updated_from (user_data app) answer app

  -- `expiryDate`; `none` is an error.
  unfoldable pub expiry_date : App → Option String
  expiry_date app = user_data app >>= λ u. some (format u.expiration)

-- `userLinkValidate`, given the user id and the token of the answer. The update of the user's data that it
-- starts at its end is left out.
unfoldable pub user_link_validate : Option (ℤ × String) → App → Option (Bool × App)
user_link_validate none app = some (false, app)
user_link_validate (some (id, token)) app =
    set_pro_user true app.settings >>= set_user_id_and_token id token >>= λ s.
    some (with_settings true app s)

-- `redeemResellerCode`, given the error of the answer.
unfoldable pub redeem_reseller_code : Option String → App → Option (Bool × App)
redeem_reseller_code none app = some (false, app)
redeem_reseller_code (some error) app =
    if error == ""
    then (set_pro_user true app.settings >>= λ s. some (with_settings true app s))
    else some (false, app)

abbrev default_locale : String
default_locale = "en-US"

-- `lang`.
unfoldable pub lang : App → String
lang app = if get_language app.settings == "" then default_locale else get_language app.settings

-- `useOSLocale`, given the language of the system.
unfoldable pub use_os_locale : Option String → Settings → Option Settings
use_os_locale none s = set_language default_locale s
use_os_locale (some locale) s = set_language (if locale == "C" then default_locale else locale) s

-- `proUser`.
unfoldable pub pro_user : App → Bool
pro_user app = let (is_pro, known) = is_pro_user_fast app in is_pro && known

-- The level that `reportIssue` sends.
unfoldable pub subscription_level : App → String
subscription_level app = if pro_user app then "pro" else "free"

-- `updatePaymentMethod`, given whether the methods were fetched.
unfoldable pub update_payment_method : Bool → App → Bool × App
update_payment_method false app = (false, app)
update_payment_method true app = (true, record app { sent = app.sent + 1 })

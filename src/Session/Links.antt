-- ===== src/Session/Links.antt =====
-- The linking of devices to an account in internalsdk/session_model.go. The answers of the servers are
-- arguments; a request that fails is `none` or `err`.
use lantern_client.Prelude.{
  String, Bool, true, false, ◌||◌, Option, some, none, [], ◌∷◌, ℤ, times, if◌then◌else◌, ◌==◌,
}
use lantern_client.Pro.User.{UserDataResponse, Result}
use lantern_client.Session.Db.{
  Call, int64, text, mutate, fail, ◌then_◌, ignore, get_text, set_user_id_and_token, set_logged_in,
}
use lantern_client.Session.Account.{user_detail}

-- An account that a code stands for.
pub record Linked : Type 0 where
  pub user_id : ℤ
  pub token : String

-- A code and its end, in seconds.
pub record LinkCode : Type 0 where
  pub code : String
  pub expire_at : ℤ

unfoldable pub code_stored : Option LinkCode → Call
code_stored none = fail
code_stored (some c) =
    mutate
      (("devicecodeexp", int64 (times 1000 c.expire_at)) ∷ ("devicelinkingcode", text c.code) ∷ [])

-- `linkCodeRequest`.
unfoldable pub link_code_request : (String → Option LinkCode) → Call
unfolding code_stored
link_code_request request db = code_stored (request (get_text "device" db)) db

module _ (format : ℤ → String) where
  redeemed : Option Linked → Result UserDataResponse → Call
  redeemed none resp = fail
  redeemed (some l) resp = set_user_id_and_token l.user_id l.token then_ user_detail format resp

  -- `linkCodeRedeem`.
  unfoldable pub link_code_redeem :
      (String → String → Option Linked) → Result UserDataResponse → Call
  unfolding redeemed
  link_code_redeem redeem resp db =
      let device = get_text "device" db in
      let code = get_text "devicelinkingcode" db in
      if code == "" || device == "" then (false, db) else redeemed (redeem device code) resp db

  -- `linkCodeApprove`, with the refresh of the user that follows it in the background.
  unfoldable pub link_code_approve : Bool → Result UserDataResponse → Call
  link_code_approve approved resp = if approved then ignore (user_detail format resp) else fail

  -- `userLinkRemove`.
  unfoldable pub user_link_remove : Bool → Result UserDataResponse → Call
  user_link_remove removed resp = if removed then user_detail format resp else fail

  validated : Option Linked → Result UserDataResponse → Call
  validated none resp = fail
  validated (some l) resp =
      set_user_id_and_token l.user_id l.token
      then_ ignore (set_logged_in true)
      then_ user_detail format resp

  -- `validateDeviceRecoveryCode`.
  unfoldable pub validate_device_recovery_code :
      (String → Option Linked) → String → Result UserDataResponse → Call
  unfolding validated
  validate_device_recovery_code validate code resp = validated (validate code) resp

-- `userEmailRequest`, given the status of the answer.
unfoldable pub user_email_request : Option String → Bool
user_email_request none = false
user_email_request (some status) = status == "ok"

-- `deviceAdd`: the error of the request is only logged.
unfoldable pub device_add : Bool → Bool
device_add added = true

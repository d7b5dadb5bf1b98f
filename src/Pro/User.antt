-- ===== src/Pro/User.antt =====
-- `createUser` and `UpdateUserData` of internalsdk/pro/user.go. The session is its reads, given as
-- arguments (`none` is an error), and the calls of its setters, in order.
use lantern_client.Prelude.{
  String, Bool, true, false, not, ◌&&◌, Option, none, some, List, [], ◌∷◌, ℤ, if◌then◌else◌, ◌==◌,
}

pub record Device : Type 0 where
  pub id : String
  pub name : String
  pub created : ℤ

-- `protos.User`, as far as the client reads it.
pub record User : Type 0 where
  pub user_id : ℤ
  pub token : String
  pub referral : String
  pub expiration : ℤ
  pub email : String
  pub user_level : String
  pub user_status : String
  pub devices : List Device

pub data Write : Type 0 where
  set_pro_user : Bool → Write
  set_user_id_and_token : ℤ → String → Write
  set_expiration : ℤ → Write
  set_referral_code : String → Write
  set_email_address : String → Write

pub data Failure : Type 0 where
  fetch_failed no_user no_device no_first_visit : Failure

pub data Result (A : Type 0) : Type 0 where
  ok : A → Result A
  err : Failure → Result A

-- A response of the server: `error` is `BaseResponse.Error` where there is a `BaseResponse`.
pub record UserDataResponse : Type 0 where
  pub error : Option String
  pub user : Option User

has_error : Option String → Bool
has_error none = false
has_error (some e) = not (e == "")

-- `UserData` and `UserCreate` of internalsdk/pro/pro.go, given what the request returns.
unfoldable pub checked : Option UserDataResponse → Result UserDataResponse
unfolding has_error
checked none = err fetch_failed
checked (some r) = if has_error r.error then err fetch_failed else ok r

-- `createUser`; `none` is the panic at a response with no user.
create_from : Option User → Option (Result (List Write))
create_from none = none
create_from (some u) =
    some (ok (set_referral_code u.referral ∷ set_user_id_and_token u.user_id u.token ∷ []))

create_with : Result UserDataResponse → Option (Result (List Write))
create_with (err e) = some (err e)
create_with (ok r) = create_from r.user

unfoldable pub create_user : Option UserDataResponse → Option (Result (List Write))
unfolding create_with create_from
create_user resp = create_with (checked resp)

-- The loop over the devices with its `break`.
unfoldable pub device_found : String → List Device → Bool
device_found current [] = false
device_found current (d ∷ ds) = elim (d.id == current) [
  | true ↦ true
  | false ↦ device_found current ds
]

-- The ladder that decides what `SetProUser` is told.
unfoldable pub pro_status : User → Bool → Bool → Bool
pro_status u first_time found =
    if u.user_level == "pro" && first_time
    then true
    else if u.user_level == "pro" && not first_time && found
    then true
    else false

unfoldable pub email_write : String → List Write
email_write email = if not (email == "") then set_email_address email ∷ [] else []

unfoldable pub update_with : User → Option String → Option Bool → Result User × List Write
update_with u none first = (err no_device, [])
update_with u (some current) none = (err no_first_visit, [])
update_with u (some current) (some first_time) = (
  ok u,
  set_pro_user (pro_status u first_time (device_found current u.devices))
      ∷ set_user_id_and_token u.user_id u.token
      ∷ set_expiration u.expiration
      ∷ set_referral_code u.referral
      ∷ email_write u.email,
)

unfoldable pub update_found : Option User → Option String → Option Bool → Result User × List Write
update_found none device first = (err no_user, [])
update_found (some u) device first = update_with u device first

unfoldable pub update_checked :
    Result UserDataResponse → Option String → Option Bool → Result User × List Write
update_checked (err e) device first = (err e, [])
update_checked (ok r) device first = update_found r.user device first

-- `UpdateUserData`.
unfoldable pub update_user_data :
    Option UserDataResponse → Option String → Option Bool → Result User × List Write
update_user_data resp device first = update_checked (checked resp) device first

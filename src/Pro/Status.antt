-- ===== src/Pro/Status.antt =====
-- When a user counts as Pro, and what a failed update leaves (internalsdk/pro/user.go).
use lantern_client.Prelude.{
  ◌≡◌, ◌↔◌, refl, String, Bool, true, false, Option, none, some, List, [], ◌∷◌, ◌==◌, ◌⊎◌, inl, inr,
  Bool-cases, eq_iff, arith,
}
use lantern_client.Pro.User.{
  Device, User, Write, set_pro_user, set_user_id_and_token, set_expiration, set_referral_code,
  Failure, fetch_failed, no_user, no_device, no_first_visit, update_with, update_found,
  update_checked, Result, ok, err, UserDataResponse, checked, device_found, pro_status, email_write,
  update_user_data,
}

-- The device is among the devices of the user.
pub data Listed (current : String) : List Device → Type 0 where
  here : {d : Device} {ds : List Device} → d.id ≡ current → Listed current (d ∷ ds)
  there : {d : Device} {ds : List Device} → Listed current ds → Listed current (d ∷ ds)

device_found-Listed :
    (current : String) (ds : List Device) → device_found current ds ≡ true → Listed current ds
unfolding device_found
device_found-Listed current [] h = absurd (cc)
device_found-Listed current (d ∷ ds) h = elim (Bool-cases (d.id == current)) [
  | inl e ↦ here ((eq_iff d.id current).0 e)
  | inr e ↦ there (device_found-Listed current ds (rw (e, device_found) at h))
]

Listed-device_found :
    (current : String) (ds : List Device) → Listed current ds → device_found current ds ≡ true
unfolding device_found
Listed-device_found current [] l = elim l [ ]
Listed-device_found current (d ∷ ds) (here e) = rw ((eq_iff d.id current).1 e, device_found)
Listed-device_found current (d ∷ ds) (there l) = ground (arith, Listed-device_found current ds l)

-- The account is at level pro, and this is the first visit or the device is one of the account's.
abbrev pub IsEntitled : User → Bool → String → Type 0
IsEntitled u first_time current =
    (u.user_level ≡ "pro") × ((first_time ≡ true) ⊎ Listed current u.devices)

pro_status_iff :
    (u : User) (first_time : Bool) (current : String)
    → (pro_status u first_time (device_found current u.devices) ≡ true)
      ↔ IsEntitled u first_time current
unfolding pro_status
pro_status_iff u true current = (
  λ h. (ground (arith, eq_iff u.user_level "pro"), inl refl),
  λ h. ground (arith, eq_iff u.user_level "pro", h.0),
)
pro_status_iff u false current = (
  λ h. (
    ground (arith, eq_iff u.user_level "pro"),
    inr (device_found-Listed current u.devices (ground arith)),
  ),
  λ h. elim h.1 [
    | inl e ↦ absurd (cc)
    | inr l ↦
        ground (arith, eq_iff u.user_level "pro", h.0, Listed-device_found current u.devices l)
  ],
)

-- What an update reports and tells the session. An error is told apart by its reason.
abbrev pub Reported :
    Option UserDataResponse → Option String → Option Bool → Result User → List Write → Type 0
Reported resp device first (err fetch_failed) ws = (checked resp ≡ err fetch_failed) × (ws ≡ [])
Reported resp device first (err no_user) ws =
    (r : UserDataResponse) × (checked resp ≡ ok r) × (r.user ≡ none) × (ws ≡ [])
Reported resp device first (err no_device) ws = (device ≡ none) × (ws ≡ [])
Reported resp device first (err no_first_visit) ws = (first ≡ none) × (ws ≡ [])
Reported resp device first (ok u) ws =
    (r : UserDataResponse) × (current : String) × (first_time : Bool) × (pro : Bool) × (checked resp
      ≡ ok r)
    × (r.user ≡ some u)
    × (device ≡ some current)
    × (first ≡ some first_time)
    × ((pro ≡ true) ↔ IsEntitled u first_time current)
    × (ws
        ≡ set_pro_user pro
          ∷ set_user_id_and_token u.user_id u.token
          ∷ set_expiration u.expiration
          ∷ set_referral_code u.referral
          ∷ email_write u.email)

update_found-Reported :
    (resp : Option UserDataResponse) (r : UserDataResponse) (o : Option User)
    (device : Option String) (first : Option Bool)
    → checked resp ≡ ok r
    → r.user ≡ o
    → Reported resp device first (update_found o device first).0 (update_found o device first).1
unfolding update_found update_with
update_found-Reported resp r none device first e f = (r, e, f, refl)
update_found-Reported resp r (some u) none first e f = (refl, refl)
update_found-Reported resp r (some u) (some current) none e f = (refl, refl)
update_found-Reported resp r (some u) (some current) (some first_time) e f = (
  r,
  current,
  first_time,
  pro_status u first_time (device_found current u.devices),
  e,
  f,
  refl,
  refl,
  pro_status_iff u first_time current,
  refl,
)

checked-err :
    (resp : Option UserDataResponse) (e : Failure) → checked resp ≡ err e → e ≡ fetch_failed
unfolding checked
checked-err none e h = cc
checked-err (some r) e h = ground arith

update_checked-Reported :
    (resp : Option UserDataResponse) (c : Result UserDataResponse) (device : Option String)
    (first : Option Bool)
    → checked resp ≡ c
    → Reported resp device first (update_checked c device first).0 (update_checked c device first).1
unfolding update_checked
update_checked-Reported resp (ok r) device first e =
    update_found-Reported resp r r.user device first e refl
update_checked-Reported resp (err fetch_failed) device first e = (e, refl)
update_checked-Reported resp (err no_user) device first e = absurd (cc (checked-err resp no_user e))
update_checked-Reported resp (err no_device) device first e =
    absurd (cc (checked-err resp no_device e))
update_checked-Reported resp (err no_first_visit) device first e =
    absurd (cc (checked-err resp no_first_visit e))

-- An update that fails has a reason (the request failed or its response has an error or no user, or
-- the device or the first visit is not known) and calls no setter. One that succeeds returns the user of
-- the response, tells the session its id and token, expiration, referral code and, if it has one, its
-- email address, and tells it Pro exactly if the account is at level pro and this is the first visit
-- or the device is among the devices of the account.
pub update_user_data-Reported :
    (resp : Option UserDataResponse) (device : Option String) (first : Option Bool)
    → Reported resp device first
        (update_user_data resp device first).0
        (update_user_data resp device first).1
unfolding update_user_data
update_user_data-Reported resp device first =
    update_checked-Reported resp (checked resp) device first refl

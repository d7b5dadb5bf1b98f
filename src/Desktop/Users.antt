-- ===== src/Desktop/Users.antt =====
-- The cache of users of the desktop application (desktop/app/pro.go). `format` is the date of an
-- expiration; `none` is a panic. What the Pro server answers is an argument: `none` is an error, and a
-- response can have no user.
use lantern_client.Prelude.{
  ℕ, suc, String, Bool, true, false, ◌||◌, Option, none, some, List, [], ◌∷◌, ℤ, pos, negsuc, eqb,
  if◌then◌else◌, ◌==◌, ◌>>=◌,
}
use lantern_client.Pro.User.{Device}
use lantern_client.Settings.Store.{Settings, set_user_id_and_token}
use lantern_client.Settings.Accessors.{
  get_user_id, set_referral_code, set_email_address, set_expiration, set_pro_user,
}

-- `protos.User`, as far as the desktop reads it.
pub record CachedUser : Type 0 where
  pub user_id : ℤ
  pub token : String
  pub code : String
  pub email : String
  pub expiration : ℤ
  pub user_level : String
  pub user_status : String
  pub devices : List Device

-- `sent` counts the calls of `sendConfigOptions`.
pub record App : Type 0 where
  pub settings : Settings
  pub user_cache : List (ℤ × CachedUser)
  pub sent : ℕ

unfoldable pub same_id : ℤ → ℤ → Bool
same_id (pos m) (pos n) = eqb m n
same_id (negsuc m) (negsuc n) = eqb m n
same_id (pos m) (negsuc n) = false
same_id (negsuc m) (pos n) = false

-- `sync.Map`.
unfoldable pub load : ℤ → List (ℤ × CachedUser) → Option CachedUser
load id [] = none
load id ((key, u) ∷ rest) = let later = load id rest in if same_id key id then some u else later

unfoldable pub store : ℤ → CachedUser → List (ℤ × CachedUser) → List (ℤ × CachedUser)
store id u cache = (id, u) ∷ cache

unfoldable pub user_data_of : ℤ → App → Option CachedUser
user_data_of id app = if same_id id (pos 0) then none else load id app.user_cache

-- `UserData` of the current user.
unfoldable pub user_data : App → Option CachedUser
user_data app = user_data_of (get_user_id app.settings) app

-- `SetUserData`; a user that is there already is stored again, which changes nothing.
unfoldable pub set_user_data : ℤ → CachedUser → App → App
set_user_data id u app = record app { user_cache = store id u app.user_cache }

with_devices : ℤ → List Device → Option CachedUser → App → App
with_devices id devices none app = app
with_devices id devices (some u) app = record app {
  user_cache = store id (record u { devices = devices }) app.user_cache;
}

-- `SetUserDevices`.
unfoldable pub set_user_devices : ℤ → List Device → App → App
unfolding with_devices
set_user_devices id devices app = with_devices id devices (user_data_of id app) app

abbrev pub is_active : CachedUser → Bool
is_active u = u.user_status == "active"

abbrev pub is_pro : CachedUser → Bool
is_pro u = u.user_status == "active" || u.user_level == "pro"

fast : Option CachedUser → Bool × Bool
fast none = (false, false)
fast (some u) = (is_pro u, true)

-- `IsProUserFast`: whether the user is Pro, and whether that is known.
unfoldable pub is_pro_user_fast : App → Bool × Bool
unfolding fast
is_pro_user_fast app = fast (user_data app)

module _ (format : ℤ → String) where
  -- The settings that `fetchUserData` stores of the user.
  unfoldable pub store_user : CachedUser → Settings → Option Settings
  store_user u s =
      set_user_id_and_token u.user_id u.token s
      >>= set_referral_code u.code
      >>= set_email_address u.email
      >>= set_expiration format u.expiration
      >>= set_pro_user (is_pro u)

  -- `fetchUserData`: the user, or `none` at an error, with the application.
  unfoldable pub fetch_user_data :
      Option (Option CachedUser) → App → Option (Option CachedUser × App)
  fetch_user_data none app = some (none, app)
  fetch_user_data (some none) app = none
  fetch_user_data (some (some u)) app =
      store_user u app.settings >>= λ s. some (some u, record app { settings = s })

  -- What `RefreshUserData` returns: an error, or a user that can be nil.
  refreshed : ℤ → Option CachedUser × App → Option (Option CachedUser) × App
  refreshed id (none, app) = (none, app)
  refreshed id (some u, app) =
      (some none, record app { user_cache = store id u app.user_cache; sent = suc app.sent })

  refresh_from :
      Option CachedUser
      → Option (Option CachedUser)
      → App
      → Option (Option (Option CachedUser) × App)
  refresh_from (some u) answer app = some (some (some u), app)
  refresh_from none answer app =
      let id = get_user_id app.settings in
      if same_id id (pos 0)
      then some (none, app)
      else fetch_user_data answer app >>= λ r. some (refreshed id r)

  -- `RefreshUserData`: after a fetch it returns the user that was not found in the cache, nil.
  unfoldable pub refresh_user_data :
      Option (Option CachedUser) → App → Option (Option (Option CachedUser) × App)
  unfolding refresh_from refreshed
  refresh_user_data answer app = refresh_from (user_data app) answer app

  active_of : Option CachedUser × App → (Bool × Bool) × App
  active_of (none, app) = ((false, false), app)
  active_of (some u, app) = ((is_active u, true), app)

  known_or_fetched :
      Option CachedUser → Option (Option CachedUser) → App → Option ((Bool × Bool) × App)
  unfolding active_of
  known_or_fetched (some u) answer app = some ((is_active u, true), app)
  known_or_fetched none answer app = fetch_user_data answer app >>= λ r. some (active_of r)

  -- `IsProUser`: whether the status is active, and whether it is known.
  unfoldable pub is_pro_user : Option (Option CachedUser) → App → Option ((Bool × Bool) × App)
  unfolding known_or_fetched
  is_pro_user answer app = known_or_fetched (user_data app) answer app

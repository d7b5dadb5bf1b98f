-- ===== src/Desktop/Refreshed.antt =====
-- What a refresh of the user leaves in the cache of desktop/app/pro.go.
use lantern_client.Prelude.{
  ◌≡◌, refl, ℕ, suc, String, arith, true, false, Option, none, some, ℤ, pos, negsuc, eqb,
}
use lantern_client.Settings.Store.{Settings}
use lantern_client.Settings.Accessors.{get_user_id}
use lantern_client.Desktop.Users.{
  CachedUser, App, same_id, load, store, user_data_of, user_data, is_pro, is_pro_user_fast,
  store_user, fetch_user_data, refresh_user_data,
}

eqb_refl : (n : ℕ) → eqb n n ≡ true
eqb_refl n = ground arith

same_id_refl : (id : ℤ) → same_id id id ≡ true
unfolding same_id
same_id_refl (pos n) = eqb_refl n
same_id_refl (negsuc n) = eqb_refl n

-- The application after the fetch.
after_fetch : CachedUser → Settings → App → App
after_fetch u s app = record {
  settings = s;
  user_cache = store (get_user_id app.settings) u app.user_cache;
  sent = suc app.sent;
}

cached_lem :
    (u : CachedUser) (s : Settings) (app : App)
    → same_id (get_user_id app.settings) (pos 0) ≡ false
    → get_user_id s ≡ get_user_id app.settings
    → user_data (after_fetch u s app) ≡ some u
unfolding user_data user_data_of store load after_fetch
cached_lem u s app known same = rw (same, known, same_id_refl (get_user_id app.settings)) refl

fetched_lem :
    (format : ℤ → String) (u : CachedUser) (app : App) (s : Settings)
    → user_data app ≡ none
    → same_id (get_user_id app.settings) (pos 0) ≡ false
    → store_user format u app.settings ≡ some s
    → refresh_user_data format (some (some u)) app ≡ some (some none, after_fetch u s app)
unfolding refresh_user_data fetch_user_data after_fetch
fetched_lem format u app s unknown known stored = rw (unknown, known, stored) refl

-- Where the user is not in the cache, the user id is not 0, and the settings that are stored of the
-- answer have the same user id: the refresh returns no user, but has cached the one that the server gave;
-- the next refresh returns it, whatever the server says, and its status is then known.
pub refresh_user_data_lem :
    (format : ℤ → String) (u : CachedUser) (next : Option (Option CachedUser)) (app : App)
    (s : Settings)
    → user_data app ≡ none
    → same_id (get_user_id app.settings) (pos 0) ≡ false
    → store_user format u app.settings ≡ some s
    → get_user_id s ≡ get_user_id app.settings
    → (app' : App) × (refresh_user_data format (some (some u)) app ≡ some (some none, app'))
      × (refresh_user_data format next app' ≡ some (some (some u), app'))
      × (is_pro_user_fast app' ≡ (is_pro u, true))
unfolding refresh_user_data is_pro_user_fast
refresh_user_data_lem format u next app s unknown known stored same =
    let cached = cached_lem u s app known same in
    (
      after_fetch u s app,
      fetched_lem format u app s unknown known stored,
      rw (cached) refl,
      rw (cached) refl,
    )

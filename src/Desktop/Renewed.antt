-- ===== src/Desktop/Renewed.antt =====
-- A new expiration of the user's plan, as `hasPlanUpdatedOrBuy` of desktop/lib.go finds it.
use lantern_client.Prelude.{
  ◌≡◌, refl, zero, suc, String, Bool, true, some, [], ◌∷◌, ℤ, pos, negsuc, lookup, insert_all,
  lookup-insert, Ensures, Ensures-bind, Ensures-mono,
}
use lantern_client.Settings.Value.{string}
use lantern_client.Settings.Names.{sn_expiry_date, setting_meta}
use lantern_client.Settings.Types.{Fits, IsTyped, set_vals-IsTyped}
use lantern_client.Settings.Writes.{set_vals-Written}
use lantern_client.Settings.Store.{Settings, set_val, get_int64}
use lantern_client.Settings.Accessors.{get_user_id, set_expiration, set_expiration_date}
use lantern_client.Desktop.Users.{App, CachedUser, user_data, user_data_of}
use lantern_client.Desktop.Exports.{is_before, has_plan_updated_or_buy}

-- The settings are typed, and their user is the same.
abbrev Kept : Settings → Settings → Type 0
Kept s s' = IsTyped s' × (get_user_id s' ≡ get_user_id s)

date-Kept :
    (text : String) (s : Settings) → IsTyped s → Ensures (Kept s) (set_expiration_date text s)
unfolding set_expiration_date set_val get_user_id get_int64 insert_all
date-Kept text s h =
    Ensures-mono IsTyped _ _
      (set_vals-IsTyped ((sn_expiry_date, string text) ∷ []) s
        (unfold Fits lookup setting_meta in (tt, tt)) h)
      λ s' e h'. (h', rw ((set_vals-Written _ s s' e).new_m, lookup-insert) refl)

expiration-Kept :
    (format : ℤ → String) (e : ℤ) (s : Settings)
    → IsTyped s
    → Ensures (Kept s) (set_expiration format e s)
unfolding set_expiration
expiration-Kept format (pos zero) s h = (h, refl)
expiration-Kept format (pos (suc n)) s h = date-Kept (format (pos (suc n))) s h
expiration-Kept format (negsuc n) s h = date-Kept (format (negsuc n)) s h

module _ (format : ℤ → String) (u : CachedUser) (expiration : ℤ)
    (earlier : is_before u.expiration expiration ≡ true) where
  -- The answer, the settings that are typed, and the user that is still cached.
  Told : Bool × App → Type 0
  Told (answer, app) = (answer ≡ true) × IsTyped app.settings × (user_data app ≡ some u)

  updated-Told :
      (app : App)
      → IsTyped app.settings
      → user_data app ≡ some u
      → Ensures Told (has_plan_updated_or_buy format (some (some expiration)) app)
  unfolding has_plan_updated_or_buy Told user_data user_data_of
  updated-Told app typed cached =
      rw (cached, earlier)
        (Ensures-bind (Kept app.settings) Told (set_expiration format expiration app.settings) _
          (expiration-Kept format expiration app.settings typed)
          λ s kept. (refl, kept.0, rw (kept.1) cached))

-- Where the cached user's plan ends before that of the server's answer, the UI is told of an update, but the
-- cached user stays, so that the next call with the same answer tells it once more.
pub has_plan_updated_lem :
    (format : ℤ → String) (app : App) (u : CachedUser) (expiration : ℤ)
    → IsTyped app.settings
    → user_data app ≡ some u
    → is_before u.expiration expiration ≡ true
    → Ensures
        (λ r.
          (r.0 ≡ true)
          × (user_data r.1 ≡ some u)
          × Ensures
              (λ again. again.0 ≡ true)
              (has_plan_updated_or_buy format (some (some expiration)) r.1))
        (has_plan_updated_or_buy format (some (some expiration)) app)
unfolding Told
has_plan_updated_lem format app u expiration typed cached earlier =
    Ensures-mono (Told format u expiration earlier) _ _
      (updated-Told format u expiration earlier app typed cached)
      λ r _ told. (
        told.0,
        told.2,
        Ensures-mono (Told format u expiration earlier) _ _
            (updated-Told format u expiration earlier r.1 told.1 told.2)
            λ again _ told_again. told_again.0,
      )

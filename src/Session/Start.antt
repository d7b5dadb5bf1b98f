-- ===== src/Session/Start.antt =====
-- The start of the session model of internalsdk/session_model.go, and the features that it looks up.
use lantern_client.Prelude.{
  String, Bool, true, Option, some, ◌>>=◌, [], ◌∷◌, ◌++◌, ℤ, Dict, if◌then◌else◌, ◌==◌,
}
use lantern_client.Session.Db.{
  Db, Call, DbValue, bool, text, mutate, succeed, ◌then_◌, ignore, get_text, set_email,
}
use lantern_client.Session.Account.{is_zero}
use lantern_client.Session.Payment.{and_then}
use lantern_client.Session.Values.{
  get_user_id, email, platform, is_pro_user, get_country_code, set_auth_enabled,
}
use lantern_client.Session.Ads.{check_ads_enabled, set_show_interstitial_ads}

-- `SessionModelOpts`.
pub record Options : Type 0 where
  pub development_mode : Bool
  pub device_id : String
  pub device : String
  pub model : String
  pub os_version : String
  pub play_version : Bool
  pub lang : String
  pub time_zone : String
  pub platform : String

module _ (sdk_version : String) (opts : Options) where
  -- The values of the transaction. The language of an earlier run is kept.
  unfoldable pub init_values : Db → Dict DbValue
  init_values db =
      (("developmentMode", bool opts.development_mode)
        ∷ ("deviceid", text opts.device_id)
        ∷ ("timezone_id", text opts.time_zone)
        ∷ ("device", text opts.device)
        ∷ ("model", text opts.model)
        ∷ ("os_version", text opts.os_version)
        ∷ ("storeVersion", bool opts.play_version)
        ∷ ("sdkVersion", text sdk_version)
        ∷ ("platform", text opts.platform)
        ∷ [])
      ++ (if get_text "lang" db == "" then ("lang", text opts.lang) ∷ [] else [])
      ++ ("forceCountry", text (get_text "forceCountry" db)) ∷ []

  -- `initSessionModel` up to its goroutines, which are the operations `create_user`, `user_detail` and
  -- `payment_methods`.
  unfoldable pub init_session_model : Call
  init_session_model =
      (λ db. if email db == "" then ignore (set_email "") db else (true, db))
      then_ (λ db. mutate (init_values db) db)
      then_ λ db.
          if is_zero (get_user_id db)
          then ignore (mutate (("isFirstTime", bool true) ∷ [])) db
          else (true, db)

-- What the configuration says of a feature for a user id, a Pro flag and a country.
abbrev pub Configurer : Type 0
Configurer = String → ℤ → Bool → String → Bool

-- `featureEnabled`; without a configuration (`none`), as before its first update, it panics.
unfoldable pub feature_enabled : Option Configurer → String → Db → Option Bool
feature_enabled configurer feature db = configurer >>= λ enabled.
    some (enabled feature (get_user_id db) (is_pro_user db) (get_country_code db))

-- `checkAvailableFeatures`; `auth` and `ads` are the names of the two features.
unfoldable pub check_available_features :
    Option Configurer → String → String → Bool → Db → Option (Bool × Db)
check_available_features configurer auth ads android db =
    feature_enabled configurer auth db >>= λ auth_enabled.
    and_then
      ((set_auth_enabled auth_enabled then_ λ d.
          if platform d == "ios" then set_auth_enabled true d else (true, d))
        db)
      λ d. feature_enabled configurer ads d >>= λ on. some (
        (set_show_interstitial_ads android on
            then_ (if on then ignore check_ads_enabled else succeed))
          d)

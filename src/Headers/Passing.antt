-- ===== src/Headers/Passing.antt =====
-- Headers of the user are left alone by `AddCommonNonUserHeaders` of internalsdk/common/headers.go.
use lantern_client.Prelude.{
  ◌≡◌, refl, ◌∙◌, String, true, false, Option, none, some, List, [], ◌∷◌, Dict, contains,
  Bool-cases, inl, inr, ◌==◌,
}
use lantern_client.Headers.Header.{Header, set, get, get-set_ne, get-add_ne}
use lantern_client.Headers.Common.{
  UserConfig, Build, device_id_header, pro_token_header, user_id_header, app_version_header,
  library_version_header, experiments_header, platform_header, app_header,
  supported_data_caps_header, time_zone_header, random_noise_header, locale_header, set_internal,
  set_experiments, set_time_zone, add_data_caps, add_common_non_user_headers,
}

-- The headers that the file names.
abbrev pub header_names : List String
header_names =
    device_id_header ∷ pro_token_header ∷ user_id_header ∷ app_version_header
    ∷ library_version_header ∷ experiments_header ∷ platform_header ∷ app_header
    ∷ supported_data_caps_header ∷ time_zone_header ∷ random_noise_header ∷ locale_header ∷ []

-- No internal header has the name.
abbrev pub NotInternal : (String → String) → Dict String → String → Type 0
NotInternal canon [] a = Unit
NotInternal canon ((k, v) ∷ hs) a = ((canon k == canon a) ≡ false) × NotInternal canon hs a

module _ (b : Build) where
  get-set_internal :
      (hs : Dict String) (a : String) (h : Header)
      → NotInternal b.canon hs a
      → get b.canon a (set_internal b hs h) ≡ get b.canon a h
  unfolding set_internal
  get-set_internal [] a h ni = refl
  get-set_internal ((k, v) ∷ hs) a h (ne, ni) = elim (Bool-cases (v == "")) [
    | inl e ↦ rw e (get-set_internal hs a h ni)
    | inr e ↦ rw e (get-set_internal hs a (set b.canon k v h) ni ∙ get-set_ne b.canon k a v h ne)
  ]

  module _ (a : String)
      (other : (k : String)
        → contains k header_names ≡ true
        → (k == a) ≡ false
        → (b.canon k == b.canon a) ≡ false) where
    get-set_experiments :
        (es : List String) (h : Header)
        → (experiments_header == a) ≡ false
        → get b.canon a (set_experiments b es h) ≡ get b.canon a h
    unfolding set_experiments
    get-set_experiments [] h e = refl
    get-set_experiments (x ∷ es) h e =
        get-set_ne b.canon experiments_header a _ h (other experiments_header refl e)

    get-set_time_zone :
        (tz : Option String) (h : Header)
        → (time_zone_header == a) ≡ false
        → get b.canon a (set_time_zone b tz h) ≡ get b.canon a h
    unfolding set_time_zone
    get-set_time_zone none h e = refl
    get-set_time_zone (some tz) h e =
        get-set_ne b.canon time_zone_header a tz h (other time_zone_header refl e)

    get-add_data_caps :
        (h : Header)
        → (supported_data_caps_header == a) ≡ false
        → get b.canon a (add_data_caps b h) ≡ get b.canon a h
    unfolding add_data_caps
    get-add_data_caps h e =
        let ne = other supported_data_caps_header refl e in
        get-add_ne b.canon supported_data_caps_header a "daily" _ ne
        ∙ get-add_ne b.canon supported_data_caps_header a "weekly" _ ne
        ∙ get-add_ne b.canon supported_data_caps_header a "monthly" h ne

    -- `a` is none of the nine names of the headers that say nothing of the user.
    pub record IsAuth : Type 0 where
      pub app_version : (app_version_header == a) ≡ false
      pub library_version : (library_version_header == a) ≡ false
      pub experiments : (experiments_header == a) ≡ false
      pub platform : (platform_header == a) ≡ false
      pub app : (app_header == a) ≡ false
      pub data_caps : (supported_data_caps_header == a) ≡ false
      pub time_zone : (time_zone_header == a) ≡ false
      pub noise : (random_noise_header == a) ≡ false
      pub locale : (locale_header == a) ≡ false

    pub get-add_common_non_user_headers :
        (uc : UserConfig) (noise : String) (h : Header)
        → IsAuth
        → NotInternal b.canon uc.internal_headers a
        → get b.canon a (add_common_non_user_headers b uc noise h) ≡ get b.canon a h
    unfolding add_common_non_user_headers
    get-add_common_non_user_headers uc noise h far ni =
        get-add_ne b.canon random_noise_header a noise _ (other random_noise_header refl far.noise)
        ∙ get-set_time_zone uc.time_zone _ far.time_zone
        ∙ get-add_data_caps _ far.data_caps
        ∙ get-set_ne b.canon app_header a uc.app_name _ (other app_header refl far.app)
        ∙ get-set_ne b.canon platform_header a b.platform _
            (other platform_header refl far.platform)
        ∙ get-set_experiments uc.enabled_experiments _ far.experiments
        ∙ get-set_internal uc.internal_headers a _ ni
        ∙ get-set_ne b.canon library_version_header a b.library_version _
            (other library_version_header refl far.library_version)
        ∙ get-set_ne b.canon app_version_header a b.application_version h
            (other app_version_header refl far.app_version)

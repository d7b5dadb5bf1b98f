-- ===== src/Headers/Common.antt =====
-- `AddCommonNonUserHeaders` and `AddCommonHeadersWithOptions` of internalsdk/common/headers.go. The build
-- (versions and platform), `strconv.FormatInt`, the join of the experiments and the random noise are
-- arguments.
use lantern_client.Prelude.{
  zero, String, Bool, true, false, not, ◌||◌, Option, none, some, List, [], ◌∷◌, Dict, ℤ, pos,
  if◌then◌else◌, ◌==◌,
}
use lantern_client.Headers.Header.{Header, set, add, get}

-- What a `UserConfig` answers; `time_zone` is `none` at an error.
pub record UserConfig : Type 0 where
  pub app_name : String
  pub device_id : String
  pub user_id : ℤ
  pub token : String
  pub language : String
  pub time_zone : Option String
  pub internal_headers : Dict String
  pub enabled_experiments : List String

-- `GetLanguage` of internalsdk/common/user_config.go.
unfoldable pub get_language : String → String
get_language language = if not (language == "") then language else "en_Us"

pub record Build : Type 0 where
  pub canon : String → String
  pub application_version : String
  pub library_version : String
  pub platform : String
  pub format_int : ℤ → String
  pub join : List String → String

abbrev pub device_id_header : String
device_id_header = "X-Lantern-Device-Id"

abbrev pub pro_token_header : String
pro_token_header = "X-Lantern-Pro-Token"

abbrev pub user_id_header : String
user_id_header = "X-Lantern-User-Id"

abbrev pub app_version_header : String
app_version_header = "X-Lantern-App-Version"

abbrev pub library_version_header : String
library_version_header = "X-Lantern-Version"

abbrev pub experiments_header : String
experiments_header = "x-lantern-dev-experiments"

abbrev pub platform_header : String
platform_header = "X-Lantern-Platform"

abbrev pub app_header : String
app_header = "X-Lantern-App"

abbrev pub supported_data_caps_header : String
supported_data_caps_header = "X-Lantern-Supported-Data-Caps"

abbrev pub time_zone_header : String
time_zone_header = "X-Lantern-Time-Zone"

abbrev pub random_noise_header : String
random_noise_header = "X-Lantern-Rand"

abbrev pub locale_header : String
locale_header = "X-Lantern-Locale"

abbrev pub is_zero : ℤ → Bool
is_zero (pos zero) = true
is_zero _ = false

module _ (b : Build) where
  -- The loop over the internal headers: empty values are skipped.
  unfoldable pub set_internal : Dict String → Header → Header
  set_internal [] h = h
  set_internal ((k, v) ∷ hs) h = set_internal hs (if not (v == "") then set b.canon k v h else h)

  unfoldable pub set_experiments : List String → Header → Header
  set_experiments [] h = h
  set_experiments (e ∷ es) h = set b.canon experiments_header (b.join (e ∷ es)) h

  unfoldable pub set_time_zone : Option String → Header → Header
  set_time_zone none h = h
  set_time_zone (some tz) h = set b.canon time_zone_header tz h

  unfoldable pub add_data_caps : Header → Header
  add_data_caps h = add b.canon supported_data_caps_header "daily" (
      add b.canon supported_data_caps_header "weekly"
        (add b.canon supported_data_caps_header "monthly" h))

  unfoldable pub add_common_non_user_headers : UserConfig → String → Header → Header
  add_common_non_user_headers uc noise h₀ =
      let h₁ = set b.canon app_version_header b.application_version h₀ in
      let h₂ = set b.canon library_version_header b.library_version h₁ in
      let h₃ = set_internal uc.internal_headers h₂ in
      let h₄ = set_experiments uc.enabled_experiments h₃ in
      let h₅ = set b.canon platform_header b.platform h₄ in
      let h₆ = set b.canon app_header uc.app_name h₅ in
      let h₇ = set_time_zone uc.time_zone (add_data_caps h₆) in
      add b.canon random_noise_header noise h₇

  -- One of the three guarded writes: a text that is not empty is written over an empty header, or over
  -- any if `overwrite`.
  unfoldable pub set_auth : Bool → String → String → Header → Header
  set_auth overwrite k v h =
      if overwrite || get b.canon k h == ""
      then (if not (v == "") then set b.canon k v h else h)
      else h

  -- The user id as a text, empty for 0.
  unfoldable pub user_id_text : ℤ → String
  user_id_text id = if is_zero id then "" else b.format_int id

  unfoldable pub set_user_id : Bool → ℤ → Header → Header
  set_user_id overwrite id h =
      if overwrite || get b.canon user_id_header h == ""
      then (if not (is_zero id) then set b.canon user_id_header (b.format_int id) h else h)
      else h

  unfoldable pub add_common_headers_with_options : UserConfig → String → Bool → Header → Header
  add_common_headers_with_options uc noise overwrite h₀ =
      let h₁ = add_common_non_user_headers uc noise h₀ in
      let h₂ = set_auth overwrite device_id_header uc.device_id h₁ in
      let h₃ = set_auth overwrite pro_token_header uc.token h₂ in
      let h₄ = set_user_id overwrite uc.user_id h₃ in set b.canon locale_header uc.language h₄

  -- `AddCommonHeaders`.
  unfoldable pub add_common_headers : UserConfig → String → Header → Header
  add_common_headers uc noise h = add_common_headers_with_options uc noise true h

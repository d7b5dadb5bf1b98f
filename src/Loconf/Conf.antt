-- ===== src/Loconf/Conf.antt =====
-- The data of desktop/loconf/loconf.go, their normalisation, and the choice of a survey.
-- `lower` stands for `strings.ToLower`, `F` for float64, and `decode` for `json.Unmarshal`.
use lantern_client.Prelude.{
  String, Bool, true, false, Option, none, some, [], ◌∷◌, Dict, lookup, insert,
}

pub record BaseSurvey (F : Type 0) : Type 0 where
  pub enabled : Bool
  pub probability : F
  pub campaign : String
  pub url : String

pub record Survey (F : Type 0) : Type 0 where
  pub base : BaseSurvey F
  pub message : String
  pub thanks : String
  pub button : String

pub record Announcement : Type 0 where
  pub campaign : String
  pub title : String
  pub message : String
  pub url : String
  pub pro : Bool
  pub free : Bool
  pub expiry : String

-- A `*Survey` that is nil is `none`; an announcement is the raw text of its section.
pub record LoConf (F : Type 0) : Type 0 where
  pub surveys : Dict (Option (Survey F))
  pub announcements : Dict String
  pub uninstall_surveys_pro : Dict (Option (BaseSurvey F))
  pub uninstall_surveys_free : Dict (Option (BaseSurvey F))

unfoldable pub pointer : {A : Type 0} → Option (Option A) → Option A
pointer none = none
pointer (some p) = p

unfoldable pub or_else : {A : Type 0} → Option A → Option A → Option A
or_else none p = p
or_else (some a) p = some a

module _ (lower : String → String) where
  -- `for k, v := range m { out[strings.ToLower(k)] = v }`
  unfoldable pub lower_keys {ℓ} : {V : Type ℓ} → Dict V → Dict V → Dict V
  lower_keys [] out = out
  lower_keys ((k, v) ∷ m) out = lower_keys m (insert (lower k) v out)

  unfoldable pub normalize : {F : Type 0} → LoConf F → LoConf F
  normalize lc = record {
    surveys = lower_keys lc.surveys [];
    announcements = lower_keys lc.announcements [];
    uninstall_surveys_pro = lower_keys lc.uninstall_surveys_pro [];
    uninstall_surveys_free = lower_keys lc.uninstall_surveys_free [];
  }

  normalize_all : {F : Type 0} → Option (LoConf F) → Option (LoConf F)
  normalize_all none = none
  normalize_all (some lc) = some (normalize lc)

  -- `parse`.
  unfoldable pub parse : {F : Type 0} → (String → Option (LoConf F)) → String → Option (LoConf F)
  unfolding normalize_all
  parse decode buf = normalize_all (decode buf)

  -- The entry of the country if it is there and not nil, else that of the locale.
  unfoldable pub get_by : {A : Type 0} → Dict (Option A) → String → String → Option A
  unfolding pointer or_else
  get_by m locale country =
      or_else (pointer (lookup (lower country) m)) (pointer (lookup (lower locale) m))

  unfoldable pub get_survey : {F : Type 0} → LoConf F → String → String → Option (Survey F)
  get_survey lc locale country = get_by lc.surveys locale country

  unfoldable pub get_uninstall_survey :
      {F : Type 0} → LoConf F → String → String → Bool → Option (BaseSurvey F)
  get_uninstall_survey lc locale country true = get_by lc.uninstall_surveys_pro locale country
  get_uninstall_survey lc locale country false = get_by lc.uninstall_surveys_free locale country

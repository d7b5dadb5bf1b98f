-- ===== src/Session/Surveys.antt =====
-- The surveys of the mobile client (internalsdk/survey.go), and the conversions of internalsdk/utils.go.
-- `lower` is `strings.ToLower`.
use Prim.Native.Char.{code}
use lantern_client.Prelude.{
  ℕ, ◌-◌, String, Bool, not, ◌&&◌, Option, none, some, List, [], ◌∷◌, ℤ, pos, negsuc, Dict, lookup,
  insert, ltb, leb, if◌then◌else◌, ◌>>=◌,
}
use lantern_client.Session.Db.{Db}
use lantern_client.Session.Values.{get_country_code}

-- `Survey` without its probability.
pub record Survey : Type 0 where
  pub enabled : Bool
  pub campaign : String
  pub url : String
  pub message : String
  pub thanks : String
  pub button : String

-- The keys in lower case; of two that become the same one is kept.
unfoldable pub lower_keys : (String → String) → Dict Survey → Dict Survey → Dict Survey
lower_keys lower [] done = done
lower_keys lower ((key, s) ∷ surveys) done = lower_keys lower surveys (insert (lower key) s done)

-- `fetchSurvey`: `none` is an error, after which the surveys are as before.
unfoldable pub fetch_survey :
    (String → String) → Option (Dict Survey) → Option (Dict Survey) → Option (Dict Survey)
fetch_survey lower none old = old
fetch_survey lower (some surveys) old = some (lower_keys lower surveys [])

enabled_survey : (Survey → Bool) → Option Survey → Option Survey
enabled_survey unlucky none = none
enabled_survey unlucky (some s) = if not s.enabled then none else if unlucky s then none else some s

-- `IsSurveyAvalible`; `unlucky` is the draw above the probability of the survey, and `none` an error.
unfoldable pub is_survey_available :
    (String → String) → (Survey → Bool) → Option (Dict Survey) → Db → Option Survey
unfolding enabled_survey
is_survey_available lower unlucky none db = none
is_survey_available lower unlucky (some surveys) db =
    enabled_survey unlucky (lookup (lower (get_country_code db)) surveys)

-- `getSurvey`, up to the JSON of its three texts.
unfoldable pub get_survey :
    (String → String) → (Survey → Bool) → Option (Dict Survey) → Db → Option (Dict String)
get_survey lower unlucky surveys db = is_survey_available lower unlucky surveys db >>= λ s.
    some (("url", s.url) ∷ ("message", s.message) ∷ ("button", s.button) ∷ [])

-- `convertIntArrayToByteArray`; `none` is an error.
unfoldable pub int_array_to_bytes : List ℤ → Option (List ℕ)
int_array_to_bytes [] = some []
int_array_to_bytes (negsuc n ∷ zs) = none
int_array_to_bytes (pos n ∷ zs) =
    let rest = int_array_to_bytes zs in if ltb 255 n then none else rest >>= λ bs. some (n ∷ bs)

-- `StringToIntSlice`: `strconv.Atoi` of one character is the value of a digit.
unfoldable pub string_to_int_slice : String → Option (List ℕ)
string_to_int_slice String.[] = some []
string_to_int_slice (String.◌∷◌ c s) =
    let rest = string_to_int_slice s in
    if leb 48 (code c) && leb (code c) 57 then (rest >>= λ ds. some ((code c - 48) ∷ ds)) else none

-- `convertStringArrayToIntArray`; `atoi` is `strconv.Atoi`.
unfoldable pub string_array_to_ints : (String → Option ℤ) → List String → Option (List ℤ)
string_array_to_ints atoi [] = some []
string_array_to_ints atoi (s ∷ ss) =
    atoi s >>= λ z. string_array_to_ints atoi ss >>= λ zs. some (z ∷ zs)

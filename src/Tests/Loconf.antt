-- ===== src/Tests/Loconf.antt =====
-- Runs of the announcements and surveys of desktop/loconf/loconf.go and desktop/app/loconfscanner.go.
use lantern_client.Prelude.{
  ℕ, ◌≡◌, ◌≢◌, ◌↔◌, refl, eq_iff, Bool-cases, inl, inr, String, true, false, Option, none, some, [],
  ◌∷◌, Dict, lookup, Ensures, if◌then◌else◌, ◌==◌,
}
use lantern_client.Settings.Value.{Value, string}
use lantern_client.Settings.Names.{setting_meta}
use lantern_client.Settings.Types.{Fits}
use lantern_client.Settings.Store.{get_string_array}
use lantern_client.Loconf.Conf.{LoConf, Announcement}
use lantern_client.Loconf.Announce.{
  ok, get_announcement, choose_section, own_or, fall_back, check_expiry, check_time, check_audience,
}
use lantern_client.Loconf.Due.{IsDue, get_announcement_iff}
use lantern_client.Loconf.Scanner.{Scan, Check, scan}
use lantern_client.Loconf.Once.{IsOnce, scan-IsOnce}

abbrev autumn : Announcement
autumn = record {
  campaign = "autumn";
  title = "Sale";
  message = "Now";
  url = "u";
  pro = false;
  free = true;
  expiry = "20";
}

abbrev conf : LoConf ℕ
conf = record {
  surveys = [];
  announcements = ("default", "en") ∷ ("en", "autumn") ∷ [];
  uninstall_surveys_pro =
      ("US", some (record { enabled = true; probability = 1; campaign = "c"; url = "u" })) ∷ [];
  uninstall_surveys_free = [];
}

abbrev lower : String → String
lower s = if s == "EN" then "en" else if s == "US" then "us" else s

lower_idem : (s : String) → lower (lower s) ≡ lower s
lower_idem s = elim (Bool-cases (s == "EN")) [
  | inl e ↦ rw e refl
  | inr e ↦ elim (Bool-cases (s == "US")) [
    | inl f ↦ rw e rw f refl
    | inr f ↦ rw e rw f rw e rw f refl
  ]
]

abbrev text : String → Option String
text s = some s

abbrev decode : String → Option Announcement
decode s = if s == "autumn" then some autumn else none

abbrev parse_time : String → Option ℕ
parse_time s = if s == "20" then some 20 else none

get_announcement_iff_example :
    (get_announcement lower text decode parse_time 10 conf "fa" false ≡ ok autumn)
    ↔ IsDue lower text decode parse_time 10 conf "fa" false autumn
get_announcement_iff_example =
    get_announcement_iff lower text decode parse_time 10 conf "fa" false autumn

-- A user of an unknown locale gets the announcement of the default locale, if it is for free users.
announcement_test :
    (get_announcement lower text decode parse_time 10 conf "fa" false ≡ ok autumn)
    × (get_announcement lower text decode parse_time 10 conf "EN" true ≢ ok autumn)
unfolding get_announcement choose_section own_or fall_back check_expiry check_time check_audience
    lookup
announcement_test = (refl, λ e. cc)

abbrev sprint_text : Value → String
sprint_text v = "?"

abbrev start : Scan
start = record {
  settings = record {
    m = ("lang", string "EN") ∷ [];
    change_notifiers = [];
    ws_out = true;
    events = [];
  };
  shown = [];
}

abbrev check : Check ℕ
check = record { fetched = some conf; is_pro = some false; shows = λ a. true; now = 10 }

start-IsOnce : IsOnce sprint_text start
unfolding get_string_array Fits lookup setting_meta
start-IsOnce = record { typed = (tt, tt); distinct = tt; stored = tt }

scan-IsOnce_example :
    Ensures
      (IsOnce sprint_text)
      (scan sprint_text lower text decode parse_time (check ∷ check ∷ []) start)
scan-IsOnce_example =
    scan-IsOnce sprint_text lower text decode parse_time (check ∷ check ∷ []) start start-IsOnce

us_is_upper : lower "US" ≡ "US" → ⊥
us_is_upper h = absurd (false_is_true ((eq_iff (lower "US") "US").1 h))
  where
    false_is_true : false ≡ true → ⊥
    false_is_true e = absurd (cc)

abbrev surveys : Dict (Option ℕ)
surveys = ("us", none) ∷ ("en", some 3) ∷ []

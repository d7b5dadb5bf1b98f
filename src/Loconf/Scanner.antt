-- ===== src/Loconf/Scanner.antt =====
-- The periodic check of desktop/app/loconfscanner.go: announcements and the uninstall survey.
use lantern_client.Prelude.{
  ℕ, String, Bool, Option, none, some, List, [], ◌∷◌, ◌++◌, contains, if◌then◌else◌, ◌>>=◌,
}
use lantern_client.Settings.Value.{Value, strings}
use lantern_client.Settings.Names.{sn_past_announcements, sn_language}
use lantern_client.Settings.Store.{Settings, get_string_array, get_string, set_string_array}
use lantern_client.Loconf.Conf.{BaseSurvey, Announcement, LoConf, get_uninstall_survey}
use lantern_client.Loconf.Announce.{Result, ok, err, get_announcement}

-- What `writeURL` writes; `lucky` says whether a probability is above the random number drawn.
unfoldable pub url_to_write : {F : Type 0} → (F → Bool) → BaseSurvey F → String
url_to_write lucky survey =
    if survey.enabled then (if lucky survey.probability then survey.url else "") else ""

url_of : {F : Type 0} → (F → Bool) → Option (BaseSurvey F) → Option String
url_of lucky none = none
url_of lucky (some survey) = some (url_to_write lucky survey)

-- `setUninstallURL`: the new contents of uninstall_url.txt, or `none` where it is left alone.
unfoldable pub set_uninstall_url :
    {F : Type 0}
    → (String → String)
    → (F → Bool)
    → LoConf F
    → String
    → String
    → Bool
    → Option String
unfolding url_of
set_uninstall_url lower lucky lc language country is_pro =
    url_of lucky (get_uninstall_survey lower lc language country is_pro)

-- The settings, and the campaigns whose notification was shown, oldest first.
pub record Scan : Type 0 where
  pub settings : Settings
  pub shown : List String

-- One round: what was fetched, the status of the user if it is known, and whether the desktop shows a
-- notification.
pub record Check (F : Type 0) : Type 0 where
  pub fetched : Option (LoConf F)
  pub is_pro : Option Bool
  pub shows : Announcement → Bool
  pub now : ℕ

module _ (sprint : Value → String) where
  -- After a notification has been shown its campaign is stored.
  unfoldable pub remember : String → List String → Scan → Option Scan
  remember campaign past s =
      set_string_array sprint sn_past_announcements (strings (past ++ campaign ∷ [])) s.settings
      >>= λ settings. some (record { settings = settings; shown = s.shown ++ campaign ∷ [] })

  unfoldable pub show_new : (Announcement → Bool) → Announcement → Scan → Option Scan
  show_new shows a s =
      let past = get_string_array sprint sn_past_announcements s.settings in
      if contains a.campaign past
      then some s
      else if shows a
      then remember a.campaign past s
      else some s

  unfoldable pub show_result : (Announcement → Bool) → Result Announcement → Scan → Option Scan
  show_result shows (err e) s = some s
  show_result shows (ok a) s = show_new shows a s

module _ (sprint : Value → String) (lower : String → String) (decode_text : String → Option String)
    (decode : String → Option Announcement) (parse_time : String → Option ℕ) where
  -- `makeAnnouncements` with `showAnnouncement`. It is taken to end before the next round begins: the source
  -- runs it in a goroutine of `onLoconf`, and rounds are four hours apart.
  unfoldable pub make_announcements :
      {F : Type 0} → (Announcement → Bool) → ℕ → LoConf F → Bool → Scan → Option Scan
  unfolding show_result show_new remember
  make_announcements shows now lc is_pro s =
      show_result sprint shows
        (get_announcement lower decode_text decode parse_time now lc
          (get_string sn_language s.settings) is_pro)
        s

  unfoldable pub check_known :
      {F : Type 0} → Check F → Option (LoConf F) → Option Bool → Scan → Option Scan
  check_known c none is_pro s = some s
  check_known c (some lc) none s = some s
  check_known c (some lc) (some is_pro) s = make_announcements c.shows c.now lc is_pro s

  -- The body of `checker`: a failed fetch and an unknown user are skipped.
  unfoldable pub checker : {F : Type 0} → Check F → Scan → Option Scan
  unfolding check_known
  checker c s = check_known c c.fetched c.is_pro s

  -- The loop of `scan`, one round for each tick until it is stopped.
  unfoldable pub scan : {F : Type 0} → List (Check F) → Scan → Option Scan
  scan [] s = some s
  scan (c ∷ cs) s = checker c s >>= λ s'. scan cs s'

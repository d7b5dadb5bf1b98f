-- ===== src/Tests/Settings.antt =====
-- Runs of the settings store of desktop/app/settings.go.
use lantern_client.Prelude.{
  ◌≡◌, refl, String, true, false, none, some, List, [], ◌∷◌, Dict, lookup, pos, Ensures,
}
use lantern_client.Settings.Value.{
  Value, bool, int, int64, number, string, entries, parse_int64, object, end, field,
}
use lantern_client.Settings.Names.{setting_meta, meta_of}
use lantern_client.Settings.Store.{
  Settings, map_to_save, ui_map, set_user_id_and_token, get_string, get_int64, get_bool, set_bool,
  set_string, set_num, set_val, set_vals, on_changes, on_change, notify_ui, calls, save, shows,
  show_nonempty,
}
use lantern_client.Settings.Messages.{
  read_message, apply_entries, apply_entry, set_typed, set_known,
}
use lantern_client.Settings.Types.{Fits, IsWellTyped, IsTyped}
use lantern_client.Settings.Safety.{read_message-IsTyped}
use lantern_client.Settings.Writes.{SignedIn, set_user_id_and_token-SignedIn}
use lantern_client.Settings.Protected.{Same, read_message-Same}
use lantern_client.Settings.Migration.{all_apart}
use lantern_client.Prelude.{to_lower, insert, insert_all}

abbrev sprint_text : Value → String
sprint_text (string t) = t
sprint_text v = "?"

abbrev stored_map : Dict Value
stored_map =
    ("userID", int64 (pos 7))
    ∷ ("userPro", bool true)
    ∷ ("lang", string "en")
    ∷ ("deviceID", string "d1")
    ∷ ("version", string "7.9")
    ∷ []

abbrev stored_settings : Settings
stored_settings = record {
  m = stored_map;
  change_notifiers = ("lang", 3 ∷ []) ∷ [];
  ws_out = true;
  events = [];
}

stored_map-IsWellTyped : IsWellTyped stored_map
unfolding Fits lookup setting_meta
stored_map-IsWellTyped = (tt, (tt, (tt, (tt, (tt, tt)))))

abbrev ui_message : Value
ui_message = object (
    field "lang" (string "de") (
      field "userID" (number "12")
        (field "deviceID" (string "d2") (field "proxyAll" (string "yes") end))))

abbrev after_message : Settings
after_message = elim (read_message sprint_text ui_message stored_settings) [
  | none ↦ stored_settings
  | some s ↦ s
]

-- The message changes the language and the user id, and neither the device id nor the flag.
message_test :
    (get_string "lang" after_message ≡ "de")
    × (get_int64 "userID" after_message ≡ pos 12)
    × (get_string "deviceID" after_message ≡ "d1")
    × (get_bool "proxyAll" after_message ≡ false)
unfolding get_string get_int64 get_bool read_message apply_entries apply_entry set_typed set_known
    set_bool set_string set_num set_val set_vals on_changes on_change notify_ui calls save lookup
    insert insert_all ui_map shows show_nonempty meta_of setting_meta map_to_save entries
    parse_int64
message_test = (refl, refl, refl, refl)

read_message-IsTyped_example : Ensures IsTyped (read_message sprint_text ui_message stored_settings)
read_message-IsTyped_example =
    read_message-IsTyped sprint_text ui_message stored_settings stored_map-IsWellTyped

device_id_is_unknown : lookup "deviceID" setting_meta ≡ none
unfolding lookup setting_meta
device_id_is_unknown = refl

read_message-Same_example :
    Ensures (Same "deviceID" stored_settings) (read_message sprint_text ui_message stored_settings)
read_message-Same_example =
    read_message-Same sprint_text "deviceID" device_id_is_unknown ui_message stored_settings
      stored_map-IsWellTyped

set_user_id_and_token-SignedIn_example :
    Ensures
      (SignedIn (pos 12) "tok" stored_settings)
      (set_user_id_and_token (pos 12) "tok" stored_settings)
set_user_id_and_token-SignedIn_example =
    set_user_id_and_token-SignedIn (pos 12) "tok" stored_settings stored_map-IsWellTyped

-- The names of the table.
abbrev table_names : List String
table_names =
    "autoReport" ∷ "autoLaunch" ∷ "proxyAll" ∷ "systemProxy" ∷ "disconnected" ∷ "googleAds" ∷ "lang"
    ∷ "country" ∷ "localHTTPToken" ∷ "emailAddress" ∷ "userID" ∷ "userToken" ∷ "userPro"
    ∷ "migratedDeviceIDForUserID" ∷ "takenSurveys" ∷ "pastAnnouncements" ∷ "addr" ∷ "socksAddr"
    ∷ "uiAddr" ∷ "version" ∷ "buildDate" ∷ "revisionDate" ∷ "enabledExperiments" ∷ "expirydate"
    ∷ "userFirstVisit" ∷ "userLoggedIn" ∷ "salt" ∷ []

abbrev old_map : Dict Value
old_map = ("userid", int (pos 7)) ∷ ("userID", int (pos 0)) ∷ ("lang", string "fa") ∷ []

names_apart : all_apart table_names ≡ true
unfolding to_lower
names_apart = refl

abbrev from_file : Dict Value → Dict Value
from_file m = ("userid", int (pos 7)) ∷ ("deviceID", string "old") ∷ m

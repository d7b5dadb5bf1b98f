-- ===== src/Settings/Load.antt =====
-- Loading the settings at startup (`LoadSettingsFrom`, `newSettings` and `toCamelCase` of
-- desktop/app/settings.go). Reading the file and `yaml.Unmarshal` into the default map stand as one
-- function on the map: it is the identity where there is no file.
use lantern_client.Prelude.{
  String, true, false, Option, none, some, List, [], ◌∷◌, Dict, lookup, insert, erase, pos,
  to_lower,
}
use lantern_client.Settings.Value.{Value, bool, int, int64, string, strings}
use lantern_client.Settings.Names.{
  sn_device_id, sn_user_id, sn_version, sn_build_date, sn_revision_date,
}
use lantern_client.Settings.Store.{Settings}

-- The map of `newSettings`.
unfoldable pub default_map : Dict Value
default_map =
    ("userID", int64 (pos 0))
    ∷ ("autoReport", bool true)
    ∷ ("autoLaunch", bool true)
    ∷ ("proxyAll", bool false)
    ∷ ("googleAds", bool true)
    ∷ ("systemProxy", bool true)
    ∷ ("disconnected", bool false)
    ∷ ("lang", string "")
    ∷ ("localHTTPToken", string "")
    ∷ ("userToken", string "")
    ∷ ("uiAddr", string "")
    ∷ ("migratedDeviceIDForUserID", int64 (pos 0))
    ∷ ("enabledExperiments", strings [])
    ∷ ("country", string "")
    ∷ ("emailAddress", string "")
    ∷ ("userPro", bool false)
    ∷ ("userLoggedIn", bool false)
    ∷ ("userFirstVisit", bool false)
    ∷ ("referralCode", string "")
    ∷ ("salt", string "")
    ∷ []

unfoldable pub new_settings : Settings
new_settings = record { m = default_map; change_notifiers = []; ws_out = false; events = [] }

unfoldable pub move_value : String → String → Option Value → Dict Value → Dict Value
move_value k lower none m = m
move_value k lower (some v) m = insert k v (erase lower m)

-- The body of the loop of `toCamelCase`.
unfoldable pub migrate : String → Dict Value → Dict Value
migrate k m = move_value k (to_lower k) (lookup (to_lower k) m) m

-- `toCamelCase`: `names` are the names of the table in the order in which `range` visits them.
unfoldable pub to_camel_case : List String → Dict Value → Dict Value
to_camel_case [] m = m
to_camel_case (k ∷ names) m = to_camel_case names (migrate k m)

unfoldable pub widen : Option Value → Dict Value → Dict Value
widen (some (int z)) m = insert sn_user_id (int64 z) m
widen (some (int64 z)) m = insert sn_user_id (int64 z) m
widen _ m = m

-- The type switch on the user id.
unfoldable pub widen_user_id : Dict Value → Dict Value
unfolding widen
widen_user_id m = widen (lookup sn_user_id m) m

-- `LoadSettingsFrom`.
unfoldable pub load_settings_from :
    (Dict Value → Dict Value) → List String → String → String → String → String → Settings
load_settings_from unmarshal names device_id version revision_date build_date =
    let migrated = to_camel_case names (unmarshal new_settings.m) in
    let widened = widen_user_id (insert sn_device_id (string device_id) migrated) in
    record new_settings {
      m =
          insert sn_revision_date (string revision_date)
            (insert sn_build_date (string build_date) (insert sn_version (string version) widened));
    }

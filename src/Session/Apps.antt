-- ===== src/Session/Apps.antt =====
-- The apps that may use the VPN (internalsdk/session_model.go): split tunnelling. `none` is a panic.
use Prim.Native.String.{◌++◌ as append}
use lantern_client.Prelude.{
  String, Bool, true, false, Option, some, none, List, [], ◌∷◌, Dict, lookup, insert, if◌then◌else◌,
}
use lantern_client.Session.Db.{Db, Call, DbValue, AppData, app, mutate}

abbrev pub app_path : String → String
app_path name = append "/appsData/" name

unfoldable pub is_stored : Option DbValue → Bool
is_stored none = false
is_stored (some v) = true

-- `pathdb.PutIfAbsent` of each app in turn.
unfoldable pub put_absent : List AppData → Dict DbValue → Dict DbValue
unfolding is_stored
put_absent [] m = m
put_absent (a ∷ as') m =
    let path = app_path a.package_name in
    put_absent as' (if is_stored (lookup path m) then m else insert path (app a) m)

abbrev pub put_at : List Bool → List AppData → Db → Bool × Db
put_at [] apps db = (true, record db { m = put_absent apps db.m })
put_at (false ∷ fs) apps db = (true, record { m = put_absent apps db.m; faults = fs })
put_at (true ∷ fs) apps db = (false, record db { faults = fs })

-- `updateAppsData`, given the apps that the file lists; `none` is an error of reading or decoding it.
unfoldable pub update_apps_data : Option (List AppData) → Call
update_apps_data none db = (false, db)
update_apps_data (some apps) db = put_at db.faults apps db

-- The stored app; `none` is the nil pointer of a path that is missing.
unfoldable pub as_app : Option DbValue → Option AppData
as_app (some (app a)) = some a
as_app _ = none

unfoldable pub get_app : String → Db → Option AppData
unfolding as_app
get_app name db = as_app (lookup (app_path name) db.m)

unfoldable pub allow : String → Bool → Option AppData → Db → Option (Bool × Db)
allow name allowed none db = none
allow name allowed (some a) db =
    some (mutate ((app_path name, app (record a { allowed_access = allowed })) ∷ []) db)

-- `updateAppData`: an app that is not stored is a nil pointer, whose fields are read.
unfoldable pub update_app_data : String → Bool → Db → Option (Bool × Db)
unfolding allow
update_app_data name allowed db = allow name allowed (get_app name db) db

-- The packages with access, in the order of the entries that `pathdb.List` gives.
unfoldable pub allowed_packages : List AppData → List String
allowed_packages [] = []
allowed_packages (a ∷ as') =
    let rest = allowed_packages as' in if a.allowed_access then a.package_name ∷ rest else rest

unfoldable pub comma_separated : List String → String
comma_separated [] = ""
comma_separated (x ∷ []) = x
comma_separated (x ∷ y ∷ ys) = append x (append "," (comma_separated (y ∷ ys)))

-- `appsAllowedAccess`, given the apps listed under the path.
unfoldable pub apps_allowed_access : List AppData → String
apps_allowed_access apps = comma_separated (allowed_packages apps)

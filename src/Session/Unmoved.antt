-- ===== src/Session/Unmoved.antt =====
-- The methods of internalsdk/session_model.go that do not concern the identity leave it alone.
use lantern_client.Prelude.{
  ◌≡◌, refl, ◌∙◌, String, Bool, true, false, not, ◌&&◌, Option, none, some, List, [], ◌∷◌, Dict,
  lookup, insert, lookup-insert, if◌then◌else◌, ◌==◌,
}
use lantern_client.Session.Db.{
  Db, DbValue, AppData, ServerInfo, app, server_info, text, bool, mutate, ◌then_◌, ignore, succeed,
  fail, set_pro_user, get_bool,
}
use lantern_client.Session.Values.{update_stats, is_pro_user}
use lantern_client.Session.Ads.{show_ads, check_ads_enabled, has_all_network_permission}
use lantern_client.Session.Apps.{app_path, put_absent, put_at, is_stored, update_apps_data}
use lantern_client.Session.Purchases.{paid, answered, restored}
use lantern_client.Session.Frame.{
  Same, Keeps, put-Keeps, then-Keeps, if-Same, if-Keeps, apps_path-ne,
}

pub update_stats-Keeps : (info : ServerInfo) (b : Bool) → Keeps (update_stats info b)
unfolding update_stats
update_stats-Keeps info b =
    if-Keeps (not (info.city == "") && not (info.country == "") && not (info.country_code == ""))
      (ignore (mutate (("hasSucceedingProxy", bool b) ∷ []))
        then_ mutate (("/server_info", server_info info) ∷ []))
      succeed
      (then-Keeps (ignore (mutate (("hasSucceedingProxy", bool b) ∷ [])))
        (mutate (("/server_info", server_info info) ∷ []))
        (put-Keeps "hasSucceedingProxy" (bool b) refl refl)
        (put-Keeps "/server_info" (server_info info) refl refl))
      (λ db. (refl, refl))

show_ads-Keeps : (kind : String) → Keeps (show_ads kind)
show_ads-Keeps kind = put-Keeps "showAds" (text kind) refl refl

pub check_ads-Keeps : Keeps check_ads_enabled
unfolding check_ads_enabled
check_ads-Keeps db =
    let nothing = show_ads "" db in
    let app_open =
      if get_bool "shouldShowAppOpenAds" db then show_ads "appOpen" db else succeed db in
    let some_kind =
      if get_bool "shouldShowGoogleAds" db then show_ads "interstitial" db else app_open in
    let permitted = if not (get_bool "/hasAllNetworkPermssion" db) then nothing else some_kind in
    if-Same (is_pro_user db) db nothing permitted (show_ads-Keeps "" db) (
      if-Same (not (get_bool "/hasAllNetworkPermssion" db)) db nothing some_kind
        (show_ads-Keeps "" db)
        (if-Same (get_bool "shouldShowGoogleAds" db) db (show_ads "interstitial" db) app_open
          (show_ads-Keeps "interstitial" db)
          (if-Same (get_bool "shouldShowAppOpenAds" db) db (show_ads "appOpen" db) (succeed db)
            (show_ads-Keeps "appOpen" db) (refl, refl))))

pub permission-Keeps : Keeps has_all_network_permission
unfolding has_all_network_permission
permission-Keeps =
    then-Keeps (mutate (("/hasAllNetworkPermssion", bool true) ∷ [])) (ignore check_ads_enabled)
      (put-Keeps "/hasAllNetworkPermssion" (bool true) refl refl) check_ads-Keeps

insert_app :
    (path other : String) (v : DbValue) (b : Bool) (m : Dict DbValue)
    → (path == other) ≡ false
    → lookup other (if b then m else insert path v m) ≡ lookup other m
insert_app path other v true m h = refl
insert_app path other v false m h = lookup-insert path other v m ∙ rw (h) refl

put_absent-lookup :
    (other : String)
    → ((name : String) → (app_path name == other) ≡ false)
    → (apps : List AppData) (m : Dict DbValue) → lookup other (put_absent apps m) ≡ lookup other m
unfolding put_absent
put_absent-lookup other apart [] m = refl
put_absent-lookup other apart (a ∷ as') m =
    let path = app_path a.package_name in
    put_absent-lookup other apart as'
      (if is_stored (lookup path m) then m else insert path (app a) m)
    ∙ insert_app path other (app a) (is_stored (lookup path m)) m (apart a.package_name)

apps_at : (faults : List Bool) (apps : List AppData) (db : Db) → Same db (put_at faults apps db)
apps_at [] apps db = (
  put_absent-lookup "userid" (λ n. (apps_path-ne n).0) apps db.m,
  put_absent-lookup "token" (λ n. (apps_path-ne n).1) apps db.m,
)
apps_at (false ∷ fs) apps db = (
  put_absent-lookup "userid" (λ n. (apps_path-ne n).0) apps db.m,
  put_absent-lookup "token" (λ n. (apps_path-ne n).1) apps db.m,
)
apps_at (true ∷ fs) apps db = (refl, refl)

pub apps_data-Keeps : (file : Option (List AppData)) → Keeps (update_apps_data file)
unfolding update_apps_data
apps_data-Keeps none db = (refl, refl)
apps_data-Keeps (some apps) db = apps_at db.faults apps db

pub pro-Keeps : (b : Bool) → Keeps (set_pro_user b)
unfolding set_pro_user
pro-Keeps b = put-Keeps "prouser" (bool b) refl refl

pub paid-Keeps :
    (purchase : Dict String → Option String) (key : String) (answer : Option String)
    → Keeps (paid purchase key answer)
unfolding paid
paid-Keeps purchase key none db = (refl, refl)
paid-Keeps purchase key (some status) db =
    if-Keeps (not (status == "ok")) fail (set_pro_user true) (λ d. (refl, refl)) (pro-Keeps true) db

pub answered-Keeps :
    (purchase : Dict String → Option String) (key : String) (answer : Option String)
    → Keeps (answered purchase key answer)
unfolding answered
answered-Keeps purchase key none db = (refl, refl)
answered-Keeps purchase key (some status) db = pro-Keeps true db

pub restored-Keeps : (answer : Option String) → Keeps (restored answer)
unfolding restored
restored-Keeps none db = (refl, refl)
restored-Keeps (some status) db =
    if-Keeps (not (status == "ok")) fail (ignore (set_pro_user true)) (λ d. (refl, refl))
      (pro-Keeps true) db

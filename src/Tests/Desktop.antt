-- ===== src/Tests/Desktop.antt =====
-- Runs of the user cache and of the sign-out of the desktop application.
use lantern_client.Prelude.{
  ◌≡◌, refl, true, false, List, ◌++◌, String, none, some, [], ◌∷◌, ℤ, pos, Bool, Dict, ◌&&◌, ◌==◌,
  Option, Ensures, lookup, insert, insert_all,
}
use lantern_client.Settings.Value.{Value, bool, int64, string}
use lantern_client.Settings.Store.{
  Settings, set_user_id_and_token, set_vals, set_val, on_changes, on_change, notify_ui, save,
  get_int64,
}
use lantern_client.Settings.Accessors.{
  get_user_id, get_token, get_email_address, get_device_id, set_referral_code, set_email_address,
  set_expiration, set_pro_user,
}
use lantern_client.Desktop.Users.{
  CachedUser, App, same_id, load, user_data_of, user_data, is_pro, is_pro_user_fast, store_user,
  refresh_user_data,
}
use lantern_client.Desktop.Auth.{logout}
use lantern_client.Desktop.Lifecycle.{
  Life, Event, add_exit_func, exits, on_config_update, run, answers,
}
use lantern_client.Desktop.Exits.{added, trues, exits_lem}
use lantern_client.Desktop.Exports.{is_before, has_plan_updated_or_buy}
use lantern_client.Desktop.Renewed.{has_plan_updated_lem}
use lantern_client.Desktop.SignedOut.{LoggedOut, logout-LoggedOut}
use lantern_client.Settings.Types.{Fits, IsTyped}
use lantern_client.Settings.Names.{setting_meta}
use lantern_client.Desktop.Refreshed.{refresh_user_data_lem}

abbrev eve : CachedUser
eve = record {
  user_id = pos 5;
  token = "t";
  code = "c";
  email = "e@f";
  expiration = pos 0;
  user_level = "pro";
  user_status = "";
  devices = [];
}

abbrev date : ℤ → String
date z = "01/02/2024"

abbrev before : Settings
before = record {
  m = ("userID", int64 (pos 5)) ∷ [];
  change_notifiers = [];
  ws_out = false;
  events = [];
}

abbrev app : App
app = record { settings = before; user_cache = []; sent = 0 }

abbrev after : Settings
after = elim (store_user date eve before) as (λ x. Settings) [ none ↦ before | some s ↦ s ]

is_stored : store_user date eve before ≡ some after
unfolding store_user set_user_id_and_token set_vals set_val on_changes on_change notify_ui save
    set_referral_code set_email_address set_expiration set_pro_user
is_stored = refl

same_user : get_user_id after ≡ get_user_id before
unfolding store_user set_user_id_and_token set_vals set_val on_changes on_change notify_ui save
    set_referral_code set_email_address set_expiration set_pro_user insert_all insert lookup
    get_user_id get_int64
same_user = refl

is_known : same_id (get_user_id before) (pos 0) ≡ false
unfolding same_id get_user_id get_int64 lookup
is_known = refl

not_cached : user_data app ≡ none
unfolding user_data user_data_of same_id get_user_id get_int64 lookup load
not_cached = refl

refresh_user_data_lem_example :
    (app' : App) × (refresh_user_data date (some (some eve)) app ≡ some (some none, app'))
    × (refresh_user_data date none app' ≡ some (some (some eve), app'))
    × (is_pro_user_fast app' ≡ (is_pro eve, true))
refresh_user_data_lem_example =
    refresh_user_data_lem date eve none app after not_cached is_known is_stored same_user

abbrev user_map : Dict Value
user_map =
    ("userID", int64 (pos 5))
    ∷ ("userToken", string "t")
    ∷ ("emailAddress", string "e@f")
    ∷ ("deviceID", string "d")
    ∷ ("userLoggedIn", bool true)
    ∷ []

abbrev signed_in : App
signed_in = record {
  settings = record { m = user_map; change_notifiers = []; ws_out = false; events = [] };
  user_cache = (pos 5, eve) ∷ [];
  sent = 0;
}

signed_in-IsTyped : IsTyped signed_in.settings
unfolding Fits lookup setting_meta
signed_in-IsTyped = (tt, (tt, (tt, (tt, (tt, tt)))))

-- The server accepts the request of the device of the user only.
abbrev out : String → String → String → ℤ → Option Bool
out email device token id = some ((email == "e@f") && (device == "d") && (token == "t"))

logout-LoggedOut_example :
    Ensures
      (LoggedOut
        (out
          (get_email_address signed_in.settings)
          (get_device_id signed_in.settings)
          (get_token signed_in.settings)
          (get_user_id signed_in.settings))
        true
        signed_in)
      (logout out true signed_in)
logout-LoggedOut_example = logout-LoggedOut out true signed_in signed_in-IsTyped

abbrev started : Life
started = record {
  has_exited = false;
  exit_funcs = [];
  runs = [];
  fetched_global_config = false;
  fetched_proxies_config = false;
  has_succeeding_proxy = false;
  sent = 0;
}

abbrev at_first : List Event
at_first = add_exit_func 1 ∷ on_config_update ∷ add_exit_func 2 ∷ []

abbrev at_last : List Event
at_last = add_exit_func 3 ∷ exits ∷ []

exits_lem_example :
    ((run (at_first ++ exits ∷ at_last) started).runs ≡ ([] ++ added at_first) ∷ [])
    × (trues (answers (at_first ++ exits ∷ at_last) started) ≡ 1)
exits_lem_example = exits_lem at_first at_last started refl (tt, (tt, (tt, tt)))

eve_cached : user_data signed_in ≡ some eve
unfolding user_data user_data_of same_id get_user_id get_int64 lookup load
eve_cached = refl

ends_earlier : is_before eve.expiration (pos 9) ≡ true
unfolding is_before
ends_earlier = refl

has_plan_updated_lem_example :
    Ensures
      (λ r.
        (r.0 ≡ true)
        × (user_data r.1 ≡ some eve)
        × Ensures
            (λ again. again.0 ≡ true)
            (has_plan_updated_or_buy date (some (some (pos 9))) r.1))
      (has_plan_updated_or_buy date (some (some (pos 9))) signed_in)
has_plan_updated_lem_example =
    has_plan_updated_lem date signed_in eve (pos 9) signed_in-IsTyped eve_cached ends_earlier

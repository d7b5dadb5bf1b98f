-- ===== src/Desktop/Lifecycle.antt =====
-- The desktop application from its start to its exit (desktop/app/app.go): what it starts with, what it has
-- fetched, and its exit functions, as events. The network library and the services are left out.
use lantern_client.Prelude.{
  ℕ, ◌+◌, String, Bool, true, false, Option, none, some, List, [], ◌∷◌, ◌++◌, ℤ, pos, if◌then◌else◌,
  ◌==◌, ◌>>=◌,
}
use lantern_client.Pro.User.{Device}
use lantern_client.Settings.Store.{Settings}
use lantern_client.Settings.Accessors.{
  get_user_id, get_language, set_language, get_addr, get_socks_addr, set_user_first_visit,
  set_proxy_all, get_device_id,
}
use lantern_client.Desktop.Users.{App, CachedUser, same_id, user_data, refresh_user_data}

-- The first of three texts that is not empty, or the last.
unfoldable pub first_of : String → String → String → String
first_of flag stored standard =
    if flag == "" then (if stored == "" then standard else stored) else flag

-- The address of the HTTP proxy that `Run` takes, and that of the SOCKS proxy.
unfoldable pub listen_addr : String → Settings → String
listen_addr flag s = first_of flag (get_addr s) "127.0.0.1:0"

unfoldable pub socks_addr : String → Settings → String
socks_addr flag s = first_of flag (get_socks_addr s) "127.0.0.1:0"

-- The flag ProxyAll is stored.
unfoldable pub apply_proxy_all : Bool → Settings → Option Settings
apply_proxy_all true s = set_proxy_all true s
apply_proxy_all false s = some s

-- `hasExited` and `exitFuncs`, with the exit functions that `doExit` has started, all at once; what was fetched; and how
-- often the options were sent to the UI.
pub record Life : Type 0 where
  pub has_exited : Bool
  pub exit_funcs : List ℕ
  pub runs : List (List ℕ)
  pub fetched_global_config : Bool
  pub fetched_proxies_config : Bool
  pub has_succeeding_proxy : Bool
  pub sent : ℕ

-- `Exit`: it answers whether the application is exiting for this call. It is one step: a function that is
-- added between the change of `hasExited` and the start of the functions, which starts it too,
-- counts as added before.
unfoldable pub exit : Life → Bool × Life
exit l =
    if l.has_exited
    then (false, l)
    else (true, record l { has_exited = true; runs = l.exit_funcs ∷ l.runs })

pub data Event : Type 0 where
  add_exit_func : ℕ → Event
  exits on_config_update on_proxies_update on_succeeding_proxy send_config : Event

unfoldable pub step : Event → Life → Life
step (add_exit_func f) l = record l { exit_funcs = l.exit_funcs ++ f ∷ [] }
step exits l = (exit l).1
step on_config_update l = record l { fetched_global_config = true; sent = l.sent + 1 }
step on_proxies_update l = record l {
  fetched_proxies_config = true;
  has_succeeding_proxy = true;
  sent = l.sent + 1;
}
step on_succeeding_proxy l = record l { has_succeeding_proxy = true }
step send_config l = record l { sent = l.sent + 1 }

unfoldable pub run : List Event → Life → Life
run [] l = l
run (e ∷ es) l = run es (step e l)

-- The answers of the calls of `Exit`.
unfoldable pub answers : List Event → Life → List Bool
answers [] l = []
answers (exits ∷ es) l = (exit l).0 ∷ answers es (exit l).1
answers (e ∷ es) l = answers es (step e l)

with_language : Settings → Option Settings
with_language s = if get_language s == "" then set_language "en_us" s else some s

-- `fetchOrCreateUser`; `create` is `RetryCreateUser`.
unfoldable pub fetch_or_create_user :
    (ℤ → String) → (App → Option App) → Option (Option CachedUser) → App → Option App
unfolding with_language
fetch_or_create_user format create answer app = with_language app.settings >>= λ s.
    let app' : App = record app { settings = s } in
    let created = set_user_first_visit true s >>= λ t. create (record app' { settings = t }) in
    let refreshed = refresh_user_data format answer app' >>= λ r. some r.1 in
    if same_id (get_user_id s) (pos 0) then created else refreshed

current_device : String → Settings → Device
current_device name s = record { id = get_device_id s; name = name; created = pos 0 }

with_devices : Device → Option CachedUser → List Device
with_devices d none = d ∷ []
with_devices d (some u) = d ∷ u.devices

-- `devices`, for the name of this device.
unfoldable pub devices : String → App → List Device
unfolding current_device with_devices
devices name app = with_devices (current_device name app.settings) (user_data app)

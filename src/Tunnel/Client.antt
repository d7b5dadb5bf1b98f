-- ===== src/Tunnel/Client.antt =====
-- The start of the iOS client and what it passes on (internalsdk/ios/ios.go), on the files of the configuration.
-- `parse_user` and `parse` are `yaml.Unmarshal`, `create` is `chained.CreateDialers` for the user of the
-- file, and whether dnsgrab's cache and its server can be opened is an argument.
use lantern_client.Prelude.{
  ℕ, zero, suc, ◌-◌, ◌/◌, String, Bool, true, not, ◌&&◌, ◌||◌, Option, none, some, List, [], ◌∷◌,
  Dict, ℤ, pos, negsuc, leb, ltb, map, if◌then◌else◌, ◌==◌, ◌>>=◌,
}
use lantern_client.DataCap.Notify.{Quota}
use lantern_client.Ios.Disk.{Disk, read_file}
use lantern_client.Ios.Config.{
  Proxy, user_config_yaml, proxies_yaml, Opened, Result, err, ok, open_config,
}

pub data StartError : Type 0 where
  no_user_config bad_proxies no_dialers no_cache no_grabber : StartError

pub data Started (A : Type 0) : Type 0 where
  failed : StartError → Started A
  started : A → Started A

-- The MTU that `Client` takes.
unfoldable pub client_mtu : ℤ → ℕ
client_mtu (pos zero) = 1500
client_mtu (pos (suc n)) = suc n
client_mtu (negsuc n) = 1500

-- `readUserConfig`: a file that is missing, empty or malformed is an error.
unfoldable pub read_user_config : {U : Type 0} → (String → Option U) → Disk → Option U
read_user_config parse_user d =
    read_file user_config_yaml d >>= λ text. if text == "" then none else parse_user text

module _ {U D : Type 0} where
  module _ (parse : String → Option (Dict Proxy)) (create : U → Dict Proxy → List D) where
    dialers_of : U → Result (Opened (Dict Proxy)) × Disk → Started (List D) × Disk
    dialers_of uc (err e, d) = (failed bad_proxies, d)
    dialers_of uc (ok o, d) = (started (create uc o.config), d)

    -- `loadDialers`: no proxies are embedded, and a file that is missing is made empty.
    unfoldable pub load_dialers : U → Disk → Started (List D) × Disk
    unfolding dialers_of
    load_dialers uc d = dialers_of uc (open_config parse proxies_yaml "" d)

    -- The rest of `start`, with the dialers.
    with_dialers : Bool → Bool → Started (List D) → Started (List D)
    with_dialers cache grabber (failed e) = failed e
    with_dialers cache grabber (started []) = failed no_dialers
    with_dialers cache grabber (started (x ∷ xs)) =
        if not cache
        then failed no_cache
        else if not grabber
        then failed no_grabber
        else started (x ∷ xs)

    -- `start`: the dialers in use, and the disk.
    unfoldable pub start_user : Bool → Bool → Option U → Disk → Started (List D) × Disk
    unfolding with_dialers
    start_user cache grabber none d = (failed no_user_config, d)
    start_user cache grabber (some uc) d =
        let (loaded, d') = load_dialers uc d in (with_dialers cache grabber loaded, d')

    unfoldable pub start : (String → Option U) → Bool → Bool → Disk → Started (List D) × Disk
    start parse_user cache grabber d = start_user cache grabber (read_user_config parse_user d) d

    in_use : Started (List D) × Disk → Option (List D × Disk)
    in_use (failed e, d) = none
    in_use (started ds, d) = some (ds, d)

    -- `reconfigure`, for the user of the start; `none` is its panic, which ends the process.
    unfoldable pub reconfigure : U → Disk → Option (List D × Disk)
    unfolding in_use
    reconfigure uc d = in_use (load_dialers uc d)

-- What `OnSuccess` of `onDialers` tells the tracker.
pub data TrackerCall : Type 0 where
  set_has_succeeding_proxy : TrackerCall
  set_active_proxy_location : String → String → String → TrackerCall

-- `OnSuccess`, given the country code of the latest statistics and the location of the proxy.
unfoldable pub on_success : String → String → String → String → List TrackerCall
on_success latest city country code =
    set_has_succeeding_proxy
    ∷ (if latest == "" || not (latest == code)
        then set_active_proxy_location city country code ∷ []
        else [])

-- `stats.Stats`.
pub record Stats : Type 0 where
  pub city : String
  pub country : String
  pub country_code : String
  pub https_upgrades : ℕ
  pub ads_blocked : ℕ
  pub has_succeeding_proxy : Bool

-- The listener of `statsTrackerUpdates`: what it passes on, if anything.
unfoldable pub stats_update : Stats → Option Stats
stats_update st =
    if not (st.city == "") && not (st.country == "") && not (st.country_code == "")
    then some st
    else none

-- The percentage, what remains and what is allowed, and the time to live.
pub record BandwidthUpdate : Type 0 where
  pub percent : ℕ
  pub remaining : ℕ
  pub allowed : ℕ
  pub ttl_seconds : ℕ

no_cap : BandwidthUpdate
no_cap = record { percent = 0; remaining = 0; allowed = 0; ttl_seconds = 0 }

module _ (percent_of : ℕ → ℕ → ℕ) where
  -- `getBandwidth` of a quota that is not nil, with its time to live; `percent_of` is the quotient of
  -- floating-point numbers.
  unfoldable pub get_bandwidth : Quota → ℕ → BandwidthUpdate
  unfolding no_cap
  get_bandwidth q ttl =
      if ltb 50000000 q.mib_allowed
      then record no_cap { ttl_seconds = ttl }
      else if leb q.mib_allowed q.mib_used
      then record { percent = 100; remaining = 0; allowed = q.mib_allowed; ttl_seconds = ttl }
      else record {
        percent = percent_of q.mib_used q.mib_allowed;
        remaining = q.mib_allowed - q.mib_used;
        allowed = q.mib_allowed;
        ttl_seconds = ttl;
      }

  -- `bandwidthUpdates`: what the tracker is told, given the first quota and the later ones. Without
  -- a first quota the updates are not listened to.
  unfoldable pub bandwidth_updates : Option Quota → List (Quota × ℕ) → List BandwidthUpdate
  unfolding no_cap
  bandwidth_updates none later = no_cap ∷ []
  bandwidth_updates (some q) later = map (λ u. get_bandwidth u.0 u.1) later

-- The buffers of a TCP connection that is dialed directly, from the bytes that remain
-- (`optimizeMemoryUsage` of internalsdk/ios/memory.go).
unfoldable pub buffer_size : ℤ → ℕ
buffer_size (negsuc n) = 4096
buffer_size (pos n) = if ltb (n / 25) 4096 then 4096 else n / 25

-- A turn of `gcPeriodically`: the memory that is available is looked up, unless the next tick is there.
unfoldable pub gc_turn : Bool → ℤ → ℤ → ℤ
gc_turn ticked remain available = if ticked then available else remain

-- `writerAdapter`: whether its channel of requests is closed, and the packets that were written.
pub record Adapter : Type 0 where
  pub is_closed : Bool
  pub packets : List String

-- `Write`, given whether the writer takes the packet; `none` is the panic of a send on a closed channel.
unfoldable pub write_packet : Bool → String → Adapter → Option (Bool × Adapter)
write_packet accepted packet a =
    if a.is_closed then none else some (accepted, record a { packets = packet ∷ a.packets })

-- `Close`, which closes the channel once.
unfoldable pub close_adapter : Adapter → Adapter
close_adapter a = record a { is_closed = true }

-- ===== src/Tests/Ios.antt =====
-- Runs of the iOS client's configuration and geolocation.
use lantern_client.Prelude.{
  ◌≡◌, refl, String, Bool, true, false, not, Option, none, some, List, [], ◌∷◌, ◌++◌, Dict, ◌==◌,
  if◌then◌else◌, arith,
}
use mathlib.Core.List.{reverse}
use lantern_client.Ios.Disk.{Disk}
use lantern_client.Ios.Config.{Proxy, Global, ok, open_config, global_yaml}
use lantern_client.Ios.Fetch.{Response, update_global, update_proxies}
use lantern_client.Ios.Config.{write_user_config}
use lantern_client.Tunnel.Client.{start, reconfigure}
use lantern_client.Tunnel.Start.{started_with, start-update_proxies}
use lantern_client.Ios.Configure.{excluded_ips, add_proxies, add_providers, add_masquerades}
use lantern_client.Ios.Reopen.{Chosen, etag_sent, open_config-update_global, update_proxies-Chosen}
use lantern_client.Ios.Excluded.{join, masquerades, listed, hosts, excluded_ips_lem}
use lantern_client.Ios.Geo.{
  GeoInfo, Geo, lookup_place, wait_of, wait_millis, is_new, enable_persistence, run_turn,
}
use lantern_client.Ios.Backoff.{answered_after, doubled_from, lookup_place_lem}
use lantern_client.Ios.Restart.{started, restart_lem}

abbrev frankfurt : Proxy
frankfurt = record { addr = "1.2.3.4:443"; multiplexed_addr = "" }

abbrev fronted : Global
fronted = record { providers = [] ∷ ("5.6.7.8" ∷ "9.9.9.9" ∷ []) ∷ [] }

abbrev parse_proxies : String → Option (Dict Proxy)
parse_proxies content = if content == "proxies" then some (("fra", frankfurt) ∷ []) else none

abbrev answer : String → Response
answer content = record { status = 200; etag = ""; content = some content; md5 = "m" }

abbrev empty_disk : Disk
empty_disk = record { files = []; faults = true ∷ [] }

update_proxies-Chosen_example :
    Chosen parse_proxies
      (some (answer "proxies"))
      "old"
      []
      (update_proxies parse_proxies "" (some (answer "proxies")) [] "old" empty_disk)
update_proxies-Chosen_example =
    update_proxies-Chosen parse_proxies "old" [] empty_disk "" (some (answer "proxies"))

-- A dialer for each proxy, of the user of the file.
abbrev create : String → Dict Proxy → List (String × String)
create user [] = []
create user ((name, p) ∷ ps) = (user, name) ∷ create user ps

abbrev configured : Disk
configured =
    (update_proxies parse_proxies "" (some (answer "proxies")) [] ""
      (write_user_config (some "user") (record { files = []; faults = [] })).1).2

start-update_proxies_example :
    (start parse_proxies create some true true configured
      ≡ (started_with (create "user" (("fra", frankfurt) ∷ [])), configured))
    × (reconfigure parse_proxies create "user" configured
        ≡ some (create "user" (("fra", frankfurt) ∷ []), configured))
start-update_proxies_example =
    start-update_proxies parse_proxies create some "user" "user" "proxies" "" (answer "proxies")
      (("fra", frankfurt) ∷ []) [] [] refl refl refl refl refl refl

abbrev parse_global : String → Option Global
parse_global content = if content == "" then none else some fronted

abbrev no_providers : Global
no_providers = record { providers = [] }

open_config-update_global_example :
    let (used, updated, d) =
      update_global parse_global
        (some (answer "g"))
        no_providers
        "old"
        (record { files = []; faults = [] }) in
    (updated ≡ not (etag_sent (answer "g") == "old"))
    × (used ≡ (if etag_sent (answer "g") == "old" then no_providers else fronted))
    × (open_config parse_global global_yaml "e" d
        ≡ (ok (record { config = fronted; etag = etag_sent (answer "g"); initialized = false }), d))
open_config-update_global_example =
    open_config-update_global parse_global "e" (answer "g") "g" fronted no_providers "old" [] refl
      refl refl refl

abbrev host_of : String → String
host_of addr = if addr == "1.2.3.4:443" then "1.2.3.4" else ""

excluded_ips_lem_example :
    excluded_ips host_of fronted (("fra", frankfurt) ∷ [])
    ≡ join (
        reverse (hosts host_of (("fra", frankfurt) ∷ [])) ++ listed (masquerades fronted.providers))
excluded_ips_lem_example = excluded_ips_lem host_of fronted (("fra", frankfurt) ∷ [])

excluded_test : excluded_ips host_of fronted (("fra", frankfurt) ∷ []) ≡ "1.2.3.4,5.6.7.8,9.9.9.9"
unfolding excluded_ips add_proxies add_providers add_masquerades
excluded_test = refl

trailing_comma_test : excluded_ips host_of no_providers (("fra", frankfurt) ∷ []) ≡ "1.2.3.4,"
unfolding excluded_ips add_proxies add_providers
trailing_comma_test = refl

abbrev here : GeoInfo
here = record { ip = "7.7.7.7"; city = some "DE"; from_disk = false }

lookup_place_lem_example :
    lookup_place 0 0 (answered_after 3 here []) ≡ some (here, doubled_from 0 3)
lookup_place_lem_example = lookup_place_lem 0 3 here [] (omega arith)

-- The 38th wait is none, as the product has become negative.
no_wait_test : wait_of 0 37 ≡ 0
unfolding wait_of wait_millis
no_wait_test = refl

-- The address alone is written; the rest is what is known of this place.
abbrev encode : GeoInfo → String
encode gi = gi.ip

abbrev decode : GeoInfo → String → Option GeoInfo
decode old content = some (record old { ip = content; city = some "DE"; from_disk = false })

abbrev first_run : Geo
first_run = record {
  current = none;
  watchers = false ∷ [];
  persist_to_file = "geo.json";
  requested = true;
  disk = record { files = []; faults = [] };
}

first_is_new : is_new here (record first_run { requested = false }) ≡ true
unfolding is_new
first_is_new = refl

restart_lem_example :
    let stored = (run_turn encode decode here first_run).disk.files in
    let next = record (started stored) { current = some here; persist_to_file = "geo.json" } in
    (enable_persistence encode decode "geo.json" (started stored) ≡ some next)
    × ((ws : List Bool) (requested : Bool)
        → run_turn encode decode here (record next { watchers = ws; requested = requested })
          ≡ record next { watchers = ws })
restart_lem_example =
    restart_lem encode decode "geo.json" refl first_run [] here here refl refl refl first_is_new
      refl refl refl

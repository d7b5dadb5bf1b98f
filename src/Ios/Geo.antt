-- ===== src/Ios/Geo.antt =====
-- What internalsdk/ios/geolookup/geolookup.go knows of the place of the client: the refreshes,
-- the channels that are told, and the file that keeps the last place. Each function holds the mutex for as
-- long as it changes the state, and is one step. `encode` and `decode` stand for encoding/json;
-- `decode` overwrites the fields of the value that it is given.
use lantern_client.Prelude.{
  ℕ, suc, ◌*◌, ◌^◌, ◌%◌, String, Bool, true, false, not, ◌&&◌, ◌||◌, Option, none, some, List, [],
  ◌∷◌, ◌++◌, map, ltb, if◌then◌else◌, ◌==◌,
}
use lantern_client.Ios.Disk.{Disk, write_file, read_file}

-- Of the city the code of its country is used; `none` is the nil pointer.
pub record GeoInfo : Type 0 where
  pub ip : String
  pub city : Option String
  pub from_disk : Bool

-- A watcher is whether its channel, which has room for one value, is full.
pub record Geo : Type 0 where
  pub current : Option GeoInfo
  pub watchers : List Bool
  pub persist_to_file : String
  pub requested : Bool
  pub disk : Disk

-- `GetGeoInfo(0)`: an error where nothing is set.
abbrev pub get_geo_info : Geo → Option GeoInfo
get_geo_info g = g.current

country_of : Option GeoInfo → Option String
country_of none = some ""
country_of (some gi) = gi.city

-- `GetCountry(0)`; `none` is a panic.
unfoldable pub get_country : Geo → Option String
unfolding country_of
get_country g = country_of (get_geo_info g)

ip_of : Option GeoInfo → String
ip_of none = ""
ip_of (some gi) = gi.ip

-- `GetIP(0)`.
unfoldable pub get_ip : Geo → String
unfolding ip_of
get_ip g = ip_of (get_geo_info g)

-- `Refresh`.
unfoldable pub refresh : Geo → Geo
refresh g = record g { requested = true }

-- `OnRefresh`.
unfoldable pub on_refresh : Geo → Geo
on_refresh g = record g { watchers = g.watchers ++ false ∷ [] }

bool_differ : Bool → Bool → Bool
bool_differ true b = not b
bool_differ false b = b

differs : Option GeoInfo → GeoInfo → Bool
unfolding bool_differ
differs none new = true
differs (some old) new = not (old.ip == new.ip) || bool_differ old.from_disk new.from_disk

unfoldable pub is_new : GeoInfo → Geo → Bool
unfolding differs
is_new new g = differs (get_geo_info g) new

module _ (encode : GeoInfo → String) (decode : GeoInfo → String → Option GeoInfo) where
  persisted : GeoInfo → Geo → Geo
  persisted gi g = record g { disk = (write_file g.persist_to_file (encode gi) g.disk).1 }

  -- `setGeoInfo`.
  unfoldable pub set_geo_info : GeoInfo → Bool → Geo → Geo
  unfolding persisted
  set_geo_info gi persist g =
      let told = record g { current = some gi; watchers = map (λ full. true) g.watchers } in
      if persist && not (g.persist_to_file == "") then persisted gi told else told

  decoded : Option GeoInfo → Geo → Geo
  decoded none g = g
  decoded (some gi) g = set_geo_info gi false g

  from_file : Option String → Geo → Geo
  unfolding decoded
  from_file none g = g
  from_file (some content) g =
      decoded (decode (record { ip = ""; city = none; from_disk = true }) content) g

  init_unknown : Option String → Geo → Option Geo
  init_unknown none g = none
  init_unknown (some country) g =
      some (if country == "" then from_file (read_file g.persist_to_file g.disk) g else g)

  -- `EnablePersistence`; `none` is a panic.
  unfoldable pub enable_persistence : String → Geo → Option Geo
  unfolding init_unknown from_file
  enable_persistence file g =
      let g' = record g { persist_to_file = file } in init_unknown (get_country g') g'

  -- One turn of the loop of `run`, given the place that `lookup` finds.
  unfoldable pub run_turn : GeoInfo → Geo → Geo
  run_turn gi g =
      let taken = record g { requested = false } in
      if is_new gi taken then set_geo_info gi true taken else taken

module _ (overflowed : ℕ) where
  -- 2 to the number of failures, times 100, as an integer of 64 bits. The floating-point product is exact;
  -- `overflowed` is what the machine makes of one that is too large.
  unfoldable pub wait_millis : ℕ → ℕ
  wait_millis failures =
      let product = 2 ^ failures * 100 in if ltb product (2 ^ 63) then product else overflowed

  -- The nanoseconds that `lookup` sleeps; a negative duration is no sleep.
  unfoldable pub wait_of : ℕ → ℕ
  wait_of failures =
      let wait = (wait_millis failures * 1000000) % 2 ^ 64 in
      if ltb wait (2 ^ 63) then if ltb 30000000000 wait then 30000000000 else wait else 0

  -- `lookup`, given the answers of the service, `none` for an error: the place and the sleeps, or
  -- `none` where it is still trying when the answers end.
  unfoldable pub lookup_place : ℕ → List (Option GeoInfo) → Option (GeoInfo × List ℕ)
  lookup_place failures [] = none
  lookup_place failures (some gi ∷ answers) = some (gi, [])
  lookup_place failures (none ∷ answers) = elim (lookup_place (suc failures) answers) [
    | none ↦ none
    | some (gi, waits) ↦ some (gi, wait_of failures ∷ waits)
  ]

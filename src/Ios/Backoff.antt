-- ===== src/Ios/Backoff.antt =====
-- How long the lookup of internalsdk/ios/geolookup/geolookup.go waits between its attempts.
use native.Mathlib.Nat.{pow-le-pow_right}
use lantern_client.Prelude.{
  ℕ, zero, suc, ◌+◌, ◌*◌, ◌^◌, ◌≤◌, ◌≡◌, refl, Option, none, some, List, [], ◌∷◌, ltb,
  if◌then◌else◌, arith,
}
use lantern_client.Ios.Geo.{GeoInfo, wait_millis, wait_of, lookup_place}

-- A tenth of a second, twice as long after each failure, and at most half a minute; in nanoseconds.
unfoldable pub doubled : ℕ → ℕ
doubled failures =
    let wait = 100 * 1000000 * 2 ^ failures in if ltb wait 30000000000 then wait else 30000000000

unfoldable pub doubled_from : ℕ → ℕ → List ℕ
doubled_from failures zero = []
doubled_from failures (suc n) = doubled failures ∷ doubled_from (suc failures) n

-- So many errors, and then the place.
unfoldable pub answered_after : ℕ → GeoInfo → List (Option GeoInfo) → List (Option GeoInfo)
answered_after zero gi later = some gi ∷ later
answered_after (suc n) gi later = none ∷ answered_after n gi later

wait-doubled :
    (overflowed failures : ℕ) → failures ≤ 36 → wait_of overflowed failures ≡ doubled failures
unfolding wait_of wait_millis doubled
wait-doubled overflowed failures h =
    let bound = pow-le-pow_right {n = 2} (omega arith) {i = failures} {j = 36} h in ground arith

lookup-doubled :
    (overflowed failures n : ℕ) (gi : GeoInfo) (later : List (Option GeoInfo))
    → failures + n ≤ 37
    → lookup_place overflowed failures (answered_after n gi later)
      ≡ some (gi, doubled_from failures n)
unfolding lookup_place answered_after doubled_from
lookup-doubled overflowed failures zero gi later h = refl
lookup-doubled overflowed failures (suc n) gi later h =
    rw
      (
        lookup-doubled overflowed (suc failures) n gi later (omega arith),
        wait-doubled overflowed failures (omega arith),
      )
      refl

-- After at most 37 errors in a row the lookup ends with the first place that the service
-- gives, having slept after each error a tenth of a second doubled with each error before it, and never
-- more than 30 seconds.
pub lookup_place_lem :
    (overflowed n : ℕ) (gi : GeoInfo) (later : List (Option GeoInfo))
    → n ≤ 37
    → lookup_place overflowed 0 (answered_after n gi later) ≡ some (gi, doubled_from 0 n)
lookup_place_lem overflowed n gi later h = lookup-doubled overflowed 0 n gi later (omega arith)

-- ===== src/Pro/Cache.antt =====
-- What the cache of internalsdk/pro/plans.go holds after a call.
use lantern_client.Prelude.{◌≡◌, String, ◌||◌, Option, some, List, if◌then◌else◌, ◌==◌, arith}
use lantern_client.Pro.Plans.{
  PaymentMethodsResponse, PlansCache, Result, ok, err, Fetched, store, plans,
  payment_methods_by_platform, desktop_payment_methods, invalid_platform,
}

-- A fetch that succeeds fills both entries; one that fails leaves the cache as it was.
abbrev Filled : PlansCache → Result Fetched × PlansCache → Type 0
Filled c (ok f, c') = c' ≡ store f
Filled c (err e, c') = c' ≡ c

-- Plans that were returned are returned again, whatever the network does; a failure changes nothing.
abbrev pub Kept : PlansCache → Result (List String) × PlansCache → Type 0
Kept c (ok ps, c') = (resp : Option PaymentMethodsResponse) → plans resp c' ≡ some (ok ps, c')
Kept c (err e, c') = c' ≡ c

-- The platform decides only whether the call is refused: the methods given for Android are those of the
-- desktop, from the cache and from the network alike; any other platform is refused and the cache is
-- left as it is.
methods_by_platform :
    (platform : String) (resp : Option PaymentMethodsResponse) (c : PlansCache)
    → payment_methods_by_platform platform resp c ≡ (
        if platform == "desktop" || platform == "android"
        then desktop_payment_methods resp c
        else some (err invalid_platform, c))
unfolding payment_methods_by_platform desktop_payment_methods
methods_by_platform platform resp c = ground arith

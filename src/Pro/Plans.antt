-- ===== src/Pro/Plans.antt =====
-- The plans and payment methods of internalsdk/pro/plans.go and their cache. `none` is a panic of Go, at
-- a type assertion that fails or a nil pointer. What the request returns (`PaymentMethodsV4`) is an argument.
use lantern_client.Prelude.{
  String, not, ◌&&◌, Option, none, some, List, [], ◌∷◌, ◌++◌, Dict, lookup, if◌then◌else◌, ◌==◌,
  ◌>>=◌,
}
use lantern_client.Settings.Value.{Value, Items, nil, string, array, done, item}

pub record Provider : Type 0 where
  pub name : String
  pub logo_urls : List String

pub record PaymentMethod : Type 0 where
  pub method : String
  pub providers : List (Option Provider)

-- `PaymentMethodsResponse`; a plan is named by its id, and has been read by the request. A method or a
-- provider that is null in the answer is a nil pointer, `none`.
pub record PaymentMethodsResponse : Type 0 where
  pub plans : List String
  pub providers : Dict (List (Option PaymentMethod))
  pub logo : Dict Value

-- `plansCache`, by its two keys.
pub record PlansCache : Type 0 where
  pub plans : Option (List String)
  pub payment_methods : Option (List PaymentMethod)

pub data Failure : Type 0 where
  fetch_failed no_desktop invalid_platform : Failure

pub data Result (A : Type 0) : Type 0 where
  ok : A → Result A
  err : Failure → Result A

-- `logo.(string)` of each logo, appended.
unfoldable pub logo_texts : Items → Option (List String)
logo_texts done = some []
logo_texts (item (string url) ls) = logo_texts ls >>= λ urls. some (url ∷ urls)
logo_texts (item v ls) = none

unfoldable pub logos_of : Option Value → Option (List String)
logos_of none = some []
logos_of (some nil) = some []
logos_of (some (array ls)) = logo_texts ls
logos_of (some v) = none

unfoldable pub add_logos : Dict Value → Provider → Option Provider
unfolding logos_of logo_texts
add_logos logo p =
    logos_of (lookup p.name logo) >>= λ urls. some (record p { logo_urls = p.logo_urls ++ urls })

unfoldable pub add_logos_all : Dict Value → List (Option Provider) → Option (List (Option Provider))
add_logos_all logo [] = some []
add_logos_all logo (none ∷ ps) = none
add_logos_all logo (some p ∷ ps) =
    add_logos logo p >>= λ p'. add_logos_all logo ps >>= λ ps'. some (some p' ∷ ps')

unfoldable pub with_logos : Dict Value → List (Option PaymentMethod) → Option (List PaymentMethod)
unfolding add_logos_all
with_logos logo [] = some []
with_logos logo (none ∷ ms) = none
with_logos logo (some m ∷ ms) = add_logos_all logo m.providers >>= λ ps.
    with_logos logo ms >>= λ ms'. some (record m { providers = ps } ∷ ms')

-- The desktop methods share their memory with the response: a response that is returned has the logos.
abbrev pub desktop : String
desktop = "desktop"

-- What a fetch gives: the plans, and the desktop methods with their logos.
pub record Fetched : Type 0 where
  pub plans : List String
  pub methods : List PaymentMethod

unfoldable pub store : Fetched → PlansCache
store f = record { plans = some f.plans; payment_methods = some f.methods }

unfoldable pub fetch_methods :
    Option (List (Option PaymentMethod))
    → PaymentMethodsResponse
    → PlansCache
    → Option (Result Fetched × PlansCache)
fetch_methods none resp c = some (err no_desktop, c)
fetch_methods (some ms) resp c = with_logos resp.logo ms >>= λ ms'.
    let f : Fetched = record { plans = resp.plans; methods = ms' } in some (ok f, store f)

-- `FetchPaymentMethodsAndCache`.
unfoldable pub fetch_and_cache :
    Option PaymentMethodsResponse → PlansCache → Option (Result Fetched × PlansCache)
fetch_and_cache none c = some (err fetch_failed, c)
fetch_and_cache (some resp) c = fetch_methods (lookup desktop resp.providers) resp c

unfoldable pub only_plans : Result Fetched → Result (List String)
only_plans (ok f) = ok f.plans
only_plans (err e) = err e

only_methods : Result Fetched → Result (List PaymentMethod)
only_methods (ok f) = ok f.methods
only_methods (err e) = err e

unfoldable pub plans_from :
    Option (List String)
    → Option PaymentMethodsResponse
    → PlansCache
    → Option (Result (List String) × PlansCache)
plans_from (some ps) resp c = some (ok ps, c)
plans_from none resp c = fetch_and_cache resp c >>= λ (r, c'). some (only_plans r, c')

-- `Plans`: the request is made only where the cache has no plans.
unfoldable pub plans :
    Option PaymentMethodsResponse → PlansCache → Option (Result (List String) × PlansCache)
plans resp c = plans_from c.plans resp c

methods_from :
    Option (List PaymentMethod)
    → Option PaymentMethodsResponse
    → PlansCache
    → Option (Result (List PaymentMethod) × PlansCache)
methods_from (some ms) resp c = some (ok ms, c)
methods_from none resp c = fetch_and_cache resp c >>= λ (r, c'). some (only_methods r, c')

-- `paymentMethodsByPlatform`.
unfoldable pub payment_methods_by_platform :
    String
    → Option PaymentMethodsResponse
    → PlansCache
    → Option (Result (List PaymentMethod) × PlansCache)
unfolding methods_from only_methods
payment_methods_by_platform platform resp c =
    if not (platform == "desktop") && not (platform == "android")
    then some (err invalid_platform, c)
    else methods_from c.payment_methods resp c

-- `DesktopPaymentMethods`.
unfoldable pub desktop_payment_methods :
    Option PaymentMethodsResponse → PlansCache → Option (Result (List PaymentMethod) × PlansCache)
desktop_payment_methods resp c = payment_methods_by_platform "desktop" resp c

-- ===== src/Session/Payment.antt =====
-- The plans and the payment providers that internalsdk/session_model.go stores, with the logos as
-- `convertLogoToMapStringSlice` of internalsdk/utils.go reads them.
use Prim.Native.String.{◌++◌ as append}
use lantern_client.Prelude.{
  String, Bool, true, false, not, ℕ, suc, Option, some, none, List, [], ◌∷◌, Dict, lookup,
  if◌then◌else◌, ◌==◌, split, ◌>>=◌,
}
use lantern_client.Settings.Value.{Value, Items, string, array, strings, done, item}
use lantern_client.Pro.Plans.{Provider}
use lantern_client.Session.Db.{
  Db, Call, DbValue, text, plan, payment_method, mutate, fail, succeed, ◌then_◌, ignore,
}
use lantern_client.Session.Values.{platform}

-- The payment methods, with the data that the server sends for each provider. What is null in the
-- answer is a nil pointer, `none`.
pub record ProviderInfo : Type 0 where
  pub name : String
  pub data_ : Dict String

pub record MethodInfo : Type 0 where
  pub method : String
  pub providers : List (Option ProviderInfo)

pub record MethodsAnswer : Type 0 where
  pub plans : List (Option String)
  pub providers : Dict (List (Option MethodInfo))
  pub logo : Dict Value

unfoldable pub first_part : List String → String
first_part [] = ""
first_part (p ∷ ps) = p

unfoldable pub plan_path : String → String
plan_path id = append "/plans/" (first_part (split 45 id))

unfoldable pub plan_entries : List String → Dict DbValue
plan_entries [] = []
plan_entries (id ∷ ids) = (plan_path id, plan id) ∷ plan_entries ids

-- `setPlans` and `storePlanDetail`.
unfoldable pub set_plans : List String → Call
unfolding plan_entries
set_plans ids = mutate (plan_entries ids)

unfoldable pub key_of : Option String → String
key_of none = ""
key_of (some key) = key

-- `setStripePubKey`.
unfoldable pub set_stripe_pub_key : Dict String → Call
unfolding key_of
set_stripe_pub_key args =
    let key = key_of (lookup "pubKey" args) in
    if key == "" then fail else mutate (("stripe_api_key", text key) ∷ [])

unfoldable pub text_items : Items → Option (List String)
text_items done = some []
text_items (item (string s) vs) = text_items vs >>= λ ts. some (s ∷ ts)
text_items (item v vs) = none

texts_of : Value → Option (List String)
unfolding text_items
texts_of (strings ts) = some ts
texts_of (array vs) = text_items vs
texts_of v = none

-- `convertLogoToMapStringSlice`; `none` is an error.
unfoldable pub convert_logo : Dict Value → Option (Dict (List String))
unfolding texts_of
convert_logo [] = some []
convert_logo ((key, v) ∷ logo) =
    texts_of v >>= λ ts. convert_logo logo >>= λ rest. some ((key, ts) ∷ rest)

unfoldable pub logo_urls_of : Option (List String) → List String
logo_urls_of none = []
logo_urls_of (some urls) = urls

-- The keys of Stripe are stored on the way.
unfoldable pub store_keys : List ProviderInfo → Call
store_keys [] = succeed
store_keys (p ∷ ps) =
    (if p.name == "stripe" then ignore (set_stripe_pub_key p.data_) else succeed)
    then_ store_keys ps

unfoldable pub with_urls : Dict (List String) → List ProviderInfo → List (Option Provider)
with_urls logos [] = []
with_urls logos (p ∷ ps) =
    some (record { name = p.name; logo_urls = logo_urls_of (lookup p.name logos) })
    ∷ with_urls logos ps

-- The fields of each are read: `none` is the panic at a nil pointer.
unfoldable pub all_there : {A : Type 0} → List (Option A) → Option (List A)
all_there [] = some []
all_there (none ∷ xs) = none
all_there (some x ∷ xs) = all_there xs >>= λ ys. some (x ∷ ys)

-- What comes after a call that returned no error, and may panic.
abbrev pub and_then : Bool × Db → (Db → Option (Bool × Db)) → Option (Bool × Db)
and_then (true, db) next = next db
and_then (false, db) next = some (false, db)

module _ (print : ℕ → String) where
  -- The loop over the methods, from the index `n`; `print` stands for `ToString`.
  unfoldable pub store_methods :
      Dict (List String) → ℕ → List (Option MethodInfo) → Db → Option (Bool × Db)
  store_methods logos n [] db = some (true, db)
  store_methods logos n (none ∷ ms) db = none
  store_methods logos n (some m ∷ ms) db = all_there m.providers >>= λ ps.
      and_then
        ((store_keys ps
            then_ mutate (
                (
                  append "/paymentMethods/" (print n),
                  payment_method (record { method = m.method; providers = with_urls logos ps }),
                )
                ∷ []))
          db)
        (store_methods logos (suc n) ms)

  unfoldable pub store_found :
      Option (Dict (List String)) → Option (List (Option MethodInfo)) → Db → Option (Bool × Db)
  store_found none ms db = some (false, db)
  store_found (some logos) none db = some (false, db)
  store_found (some logos) (some ms) db = store_methods logos 0 ms db

  -- `storePaymentProviders`; a key whose value is null counts as missing.
  unfoldable pub store_payment_providers : MethodsAnswer → Db → Option (Bool × Db)
  unfolding store_found store_methods store_keys with_urls logo_urls_of all_there
  store_payment_providers r db = store_found (convert_logo r.logo) (lookup "android" r.providers) db

  -- The error of `storePaymentProviders` is dropped.
  unfoldable pub store_unless_ios : MethodsAnswer → Db → Option (Bool × Db)
  store_unless_ios r db =
      if not (platform db == "ios")
      then (store_payment_providers r db >>= λ o. some (true, o.1))
      else some (true, db)

  -- `paymentMethods`, given the answer (`none` is an error). A plan that is null panics where
  -- `PaymentMethodsV4` reads its id.
  unfoldable pub payment_methods : Option MethodsAnswer → Db → Option (Bool × Db)
  unfolding store_unless_ios
  payment_methods none db = some (false, db)
  payment_methods (some r) db =
      all_there r.plans >>= λ ids. and_then (set_plans ids db) (store_unless_ios r)

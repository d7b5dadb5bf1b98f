-- ===== src/Session/Outside.antt =====
-- Every method of the session that does not concern the identity (`doInvokeMethod` of
-- internalsdk/session_model.go) leaves the user id and the token as they are.
use Prim.Native.String.{◌++◌ as append}
use lantern_client.Prelude.{
  ◌≡◌, refl, ◌∙◌, ◌⊎◌, inl, inr, Bool-cases, ◌>>=◌, ℕ, suc, String, Bool, true, false, Option, none,
  some, List, [], ◌∷◌, Dict, lookup, last_write, if◌then◌else◌, ◌==◌, to_lower, split, times,
}
use lantern_client.Session.Db.{
  Db, Call, DbValue, bool, int64, text, bytes, plan, payment_method, mutate, ◌then_◌, ignore,
  succeed, fail, set_email, set_logged_in, get_text,
}
use lantern_client.Session.Values.{
  set_reseller_code, platform, set_auth_enabled, get_user_id, is_pro_user, get_country_code,
}
use lantern_client.Session.Links.{LinkCode, code_stored}
use lantern_client.Session.Payment.{
  ProviderInfo, MethodInfo, MethodsAnswer, first_part, plan_path, plan_entries, set_plans, key_of,
  set_stripe_pub_key, convert_logo, store_keys, with_urls, store_methods, store_found,
  store_payment_providers, payment_methods, all_there, and_then, store_unless_ios,
}
use lantern_client.Session.Purchases.{
  create_purchase_data, request, redeem_request, redeem_reseller_code,
}
use lantern_client.Session.Secrets.{verified, signup}
use lantern_client.Session.Ads.{check_ads_enabled, check_on, set_show_interstitial_ads}
use lantern_client.Session.Start.{Configurer, feature_enabled, check_available_features}
use lantern_client.Session.Unmoved.{check_ads-Keeps}
use lantern_client.Session.Frame.{
  Same, Keeps, mutate-Keeps, put-Keeps, then-Keeps, if-Same, if-Keeps, plans_path-ne,
  methods_path-ne,
}
use lantern_client.Session.Unmoved.{answered-Keeps}

plans_aside :
    (j : String)
    → ((id : String) → (plan_path id == j) ≡ false)
    → (ids : List String) (o : Option DbValue) → last_write j (plan_entries ids) o ≡ o
unfolding plan_entries last_write
plans_aside j apart [] o = refl
plans_aside j apart (id ∷ ids) o =
    plans_aside j apart ids (if plan_path id == j then some (plan id) else o) ∙ rw (apart id) refl

set_plans-Keeps : (ids : List String) → Keeps (set_plans ids)
unfolding set_plans plan_path
set_plans-Keeps ids =
    mutate-Keeps (plan_entries ids)
      (plans_aside "userid" (λ id. (plans_path-ne (first_part (split 45 id))).0) ids)
      (plans_aside "token" (λ id. (plans_path-ne (first_part (split 45 id))).1) ids)

stripe_key-Keeps : (args : Dict String) → Keeps (set_stripe_pub_key args)
unfolding set_stripe_pub_key
stripe_key-Keeps args =
    let key = key_of (lookup "pubKey" args) in
    if-Keeps (key == "") fail (mutate (("stripe_api_key", text key) ∷ [])) (λ db. (refl, refl))
      (put-Keeps "stripe_api_key" (text key) refl refl)

store_keys-Keeps : (ps : List ProviderInfo) → Keeps (store_keys ps)
unfolding store_keys
store_keys-Keeps [] = λ db. (refl, refl)
store_keys-Keeps (p ∷ ps) =
    let first = if p.name == "stripe" then ignore (set_stripe_pub_key p.data_) else succeed in
    then-Keeps first (store_keys ps)
      (if-Keeps (p.name == "stripe") (ignore (set_stripe_pub_key p.data_)) succeed
        (stripe_key-Keeps p.data_) (λ db. (refl, refl)))
      (store_keys-Keeps ps)

-- A call that may panic: it panics only under the condition, and otherwise leaves the identity.
abbrev pub Bounded : Type 0 → Db → Option (Bool × Db) → Type 0
Bounded P db none = P
Bounded P db (some o) = Same db o

Bounded-mono :
    (P Q : Type 0) (db : Db) (o : Option (Bool × Db)) → (P → Q) → Bounded P db o → Bounded Q db o
Bounded-mono P Q db none f h = f h
Bounded-mono P Q db (some o) f h = h

Bounded-after :
    (P : Type 0) (db d : Db) (b : Bool) (o : Option (Bool × Db))
    → Same db (b, d)
    → Bounded P d o
    → Bounded P db o
Bounded-after P db d b none same h = h
Bounded-after P db d b (some o) same h = (h.0 ∙ same.0, h.1 ∙ same.1)

and_then-Bounded :
    (P : Type 0) (db : Db) (o : Bool × Db) (next : Db → Option (Bool × Db))
    → Same db o
    → ((d : Db) → Bounded P d (next d))
    → Bounded P db (and_then o next)
and_then-Bounded P db (true, d) next same h = Bounded-after P db d true (next d) same (h d)
and_then-Bounded P db (false, d) next same h = same

-- A null in a list of the answer.
abbrev pub HasNull : {A : Type 0} → List (Option A) → Type 0
HasNull [] = ⊥
HasNull (none ∷ xs) = Unit
HasNull (some x ∷ xs) = HasNull xs

abbrev pub HasNullMethod : List (Option MethodInfo) → Type 0
HasNullMethod [] = ⊥
HasNullMethod (none ∷ ms) = Unit
HasNullMethod (some m ∷ ms) = HasNull m.providers ⊎ HasNullMethod ms

abbrev HasNullAt : Option (List (Option MethodInfo)) → Type 0
HasNullAt none = ⊥
HasNullAt (some ms) = HasNullMethod ms

-- A plan, or a method or a provider for Android, is null.
abbrev pub IsHoled : Option MethodsAnswer → Type 0
IsHoled none = ⊥
IsHoled (some r) = HasNull r.plans ⊎ HasNullAt (lookup "android" r.providers)

all_there-cases :
    {A : Type 0} (xs : List (Option A))
    → ((all_there xs ≡ none) × HasNull xs) ⊎ ((ys : List A) × (all_there xs ≡ some ys))
unfolding all_there
all_there-cases [] = inr ([], refl)
all_there-cases (none ∷ xs) = inl (refl, tt)
all_there-cases (some x ∷ xs) = elim (all_there-cases xs) [
  | inl (e, null) ↦ inl (rw e refl, null)
  | inr (ys, e) ↦ inr (x ∷ ys, rw e refl)
]

module _ (print : ℕ → String) where
  method_stored-Keeps :
      (logos : Dict (List String)) (n : ℕ) (method : String) (ps : List ProviderInfo)
      → Keeps (
          store_keys ps
          then_ mutate (
              (
                append "/paymentMethods/" (print n),
                payment_method (record { method = method; providers = with_urls logos ps }),
              )
              ∷ []))
  method_stored-Keeps logos n method ps =
      let path = append "/paymentMethods/" (print n) in
      let value = payment_method (record { method = method; providers = with_urls logos ps }) in
      let away = methods_path-ne (print n) in
      then-Keeps (store_keys ps) (mutate ((path, value) ∷ [])) (store_keys-Keeps ps)
        (put-Keeps path value away.0 away.1)

  store_methods-Bounded :
      (logos : Dict (List String)) (n : ℕ) (ms : List (Option MethodInfo)) (db : Db)
      → Bounded (HasNullMethod ms) db (store_methods print logos n ms db)
  unfolding store_methods
  store_methods-Bounded logos n [] db = (refl, refl)
  store_methods-Bounded logos n (none ∷ ms) db = tt
  store_methods-Bounded logos n (some m ∷ ms) db = elim (all_there-cases m.providers) [
    | inl (e, null) ↦ rw e (inl null)
    | inr (ps, e) ↦ rw e (
        and_then-Bounded (HasNull m.providers ⊎ HasNullMethod ms) db _
          (store_methods print logos (suc n) ms) (method_stored-Keeps logos n m.method ps db)
          λ d.
            Bounded-mono (HasNullMethod ms) _ d (store_methods print logos (suc n) ms d)
              (λ null. inr null) (store_methods-Bounded logos (suc n) ms d))
  ]

  store_found-Bounded :
      (logos : Option (Dict (List String))) (ms : Option (List (Option MethodInfo))) (db : Db)
      → Bounded (HasNullAt ms) db (store_found print logos ms db)
  unfolding store_found
  store_found-Bounded none ms db = (refl, refl)
  store_found-Bounded (some logos) none db = (refl, refl)
  store_found-Bounded (some logos) (some ms) db = store_methods-Bounded logos 0 ms db

  -- The flag of the result does not matter.
  flagged-Bounded :
      (P : Type 0) (db : Db) (o : Option (Bool × Db))
      → Bounded P db o
      → Bounded P db (o >>= λ r. some (true, r.1))
  flagged-Bounded P db none h = h
  flagged-Bounded P db (some r) h = h

  store_unless_ios-Bounded :
      (r : MethodsAnswer) (db : Db)
      → Bounded (HasNullAt (lookup "android" r.providers)) db (store_unless_ios print r db)
  unfolding store_unless_ios store_payment_providers
  store_unless_ios-Bounded r db = elim (Bool-cases (platform db == "ios")) [
    | inl e ↦ rw e (refl, refl)
    | inr e ↦ rw e (
        flagged-Bounded (HasNullAt (lookup "android" r.providers)) db
          (store_found print (convert_logo r.logo) (lookup "android" r.providers) db)
          (store_found-Bounded (convert_logo r.logo) (lookup "android" r.providers) db))
  ]

  pub payment_methods-Bounded :
      (answer : Option MethodsAnswer) (db : Db)
      → Bounded (IsHoled answer) db (payment_methods print answer db)
  unfolding payment_methods
  payment_methods-Bounded none db = (refl, refl)
  payment_methods-Bounded (some r) db = elim (all_there-cases r.plans) [
    | inl (e, null) ↦ rw e (inl null)
    | inr (ids, e) ↦ rw e (
        and_then-Bounded (IsHoled (some r)) db (set_plans ids db) (store_unless_ios print r)
          (set_plans-Keeps ids db)
          λ d.
            Bounded-mono (HasNullAt (lookup "android" r.providers)) _ d (store_unless_ios print r d)
              (λ null. inr null) (store_unless_ios-Bounded r d))
  ]

pub email-Keeps : (t : String) → Keeps (set_email t)
unfolding set_email
email-Keeps t = put-Keeps "emailAddress" (text t) refl refl

pub redeem-Keeps :
    (purchase : Dict String → Option String) (key email code : String)
    → Keeps (redeem_reseller_code purchase key email code)
unfolding redeem_reseller_code redeem_request set_reseller_code
redeem-Keeps purchase key email code =
    let mail = to_lower email in
    let stored : Call = set_email mail then_ ignore (set_reseller_code code) in
    then-Keeps stored (redeem_request purchase key mail code)
      (then-Keeps (set_email mail) (ignore (set_reseller_code code)) (email-Keeps mail)
        (put-Keeps "resellercode" (text code) refl refl))
      (λ db.
        answered-Keeps purchase key
          (request purchase key
            (create_purchase_data key (get_text "model" db) mail "reseller-code" code "" ""))
          db)

pub signup-Keeps : (email : String) (salt : Option (List ℕ)) → Keeps (signup email salt)
unfolding signup set_logged_in last_write
signup-Keeps email none = λ db. (refl, refl)
signup-Keeps email (some salt) =
    let values : Dict DbValue =
      ("user_salt", bytes salt) ∷ ("emailAddress", text (to_lower email)) ∷ [] in
    then-Keeps (mutate values) (set_logged_in true) (mutate-Keeps values (λ o. refl) (λ o. refl))
      (put-Keeps "IsUserLoggedIn" (bool true) refl refl)

pub verified-Keeps :
    (v : Option (List ℕ)) (accept : List ℕ → Bool) (store : Call)
    → Keeps store
    → Keeps (verified v accept store)
unfolding verified
verified-Keeps none accept store k = λ db. (refl, refl)
verified-Keeps (some v) accept store k = if-Keeps (accept v) store fail k (λ db. (refl, refl))

pub code_stored-Keeps : (c : Option LinkCode) → Keeps (code_stored c)
unfolding code_stored last_write
code_stored-Keeps none = λ db. (refl, refl)
code_stored-Keeps (some c) =
    mutate-Keeps
      (("devicecodeexp", int64 (times 1000 c.expire_at)) ∷ ("devicelinkingcode", text c.code) ∷ [])
      (λ o. refl) (λ o. refl)

interstitial-Keeps : (android on : Bool) → Keeps (set_show_interstitial_ads android on)
unfolding set_show_interstitial_ads
interstitial-Keeps android on =
    then-Keeps (ignore (mutate (("shouldShowGoogleAds", bool on) ∷ []))) (check_on android)
      (put-Keeps "shouldShowGoogleAds" (bool on) refl refl)
      (if-Keeps android (ignore check_ads_enabled) succeed check_ads-Keeps (λ db. (refl, refl)))

auth-Keeps : (b : Bool) → Keeps (set_auth_enabled b)
unfolding set_auth_enabled
auth-Keeps b = put-Keeps "authEnabled" (bool b) refl refl

-- The features are looked up unless there is no configuration.
pub features-Bounded :
    (configurer : Option Configurer) (auth ads : String) (android : Bool) (db : Db)
    → Bounded (configurer ≡ none) db (check_available_features configurer auth ads android db)
unfolding check_available_features feature_enabled
features-Bounded none auth ads android db = refl
features-Bounded (some enabled) auth ads android db =
    let auth_enabled = enabled auth (get_user_id db) (is_pro_user db) (get_country_code db) in
    let second : Call = λ d. if platform d == "ios" then set_auth_enabled true d else (true, d) in
    and_then-Bounded _ db ((set_auth_enabled auth_enabled then_ second) db) _
      (then-Keeps (set_auth_enabled auth_enabled) second (auth-Keeps auth_enabled)
        (λ d.
          if-Same (platform d == "ios") d (set_auth_enabled true d) (true, d) (auth-Keeps true d)
            (refl, refl))
        db)
      λ d.
        let on = enabled ads (get_user_id d) (is_pro_user d) (get_country_code d) in
        then-Keeps (set_show_interstitial_ads android on)
          (if on then ignore check_ads_enabled else succeed) (interstitial-Keeps android on)
          (if-Keeps on (ignore check_ads_enabled) succeed check_ads-Keeps (λ x. (refl, refl))) d

-- ===== src/Session/Identity.antt =====
-- The identity (user id and token) of internalsdk/session_model.go is replaced as a whole or not at
-- all, whichever transactions fail.
use lantern_client.Prelude.{
  ◌≡◌, refl, ◌∙◌, String, Bool, true, false, Option, some, List, [], ◌∷◌, inl, inr, zero, suc, ℤ,
  pos, negsuc, Dict, lookup, last_write, lookup-insert_all, Bool-cases, ◌==◌,
}
use lantern_client.Pro.User.{User, Device}
use lantern_client.Session.Db.{
  DbValue, int64, text, Db, Call, write_at, mutate, continue, ◌then_◌, set_email, set_referral_code,
  set_user_level, set_expiration, set_pro_user, set_devices, set_user_id_and_token,
}
use lantern_client.Session.Account.{
  cache_email, cache_referral, decide_pro, cache_profile, cache_user_detail,
}

-- The call leaves the value at the path as it is.
abbrev pub Leaves : String → Call → Type 0
Leaves j p = (db : Db) → lookup j (p db).1.m ≡ lookup j db.m

write_at-Leaves :
    (j : String) (values : Dict DbValue) (fs : List Bool) (db : Db)
    → ((o : Option DbValue) → last_write j values o ≡ o)
    → lookup j (write_at fs values db).1.m ≡ lookup j db.m
write_at-Leaves j values [] db aside = lookup-insert_all values db.m j ∙ aside _
write_at-Leaves j values (false ∷ fs) db aside = lookup-insert_all values db.m j ∙ aside _
write_at-Leaves j values (true ∷ fs) db aside = refl

pub mutate-Leaves :
    (j : String) (values : Dict DbValue)
    → ((o : Option DbValue) → last_write j values o ≡ o)
    → Leaves j (mutate values)
unfolding mutate
mutate-Leaves j values aside db = write_at-Leaves j values db.faults db aside

continue-Leaves :
    (j : String) (o : Bool × Db) (q : Call)
    → Leaves j q
    → lookup j (continue o q).1.m ≡ lookup j o.1.m
continue-Leaves j (true, db) q l = l db
continue-Leaves j (false, db) q l = refl

pub then-Leaves : (j : String) (p q : Call) → Leaves j p → Leaves j q → Leaves j (p then_ q)
then-Leaves j p q lp lq db = continue-Leaves j (p db) q lq ∙ lp db

-- The path is none of those that the profile is written to.
pub record IsAside (j : String) : Type 0 where
  email : ("emailAddress" == j) ≡ false
  referral : ("referral" == j) ≡ false
  level : ("userLevel" == j) ≡ false
  expiry_text : ("expirydatestr" == j) ≡ false
  expiry : ("expirydate" == j) ≡ false
  pro : ("prouser" == j) ≡ false
  devices : ("devices" == j) ≡ false

module _ (j : String) (aside : IsAside j) where
  cache_email-Leaves : (email : String) → Leaves j (cache_email email)
  unfolding cache_email set_email last_write
  cache_email-Leaves email db = elim (Bool-cases (email == "")) [
    | inl e ↦ rw e refl
    | inr e ↦ rw e (mutate-Leaves j _ (λ o. rw aside.email) db)
  ]

  cache_referral-Leaves : (code : String) → Leaves j (cache_referral code)
  unfolding cache_referral set_referral_code last_write
  cache_referral-Leaves code db = elim (Bool-cases (code == "")) [
    | inl e ↦ rw e refl
    | inr e ↦ rw e (mutate-Leaves j _ (λ o. rw aside.referral) db)
  ]

  set_user_level-Leaves : (level : String) → Leaves j (set_user_level level)
  unfolding set_user_level last_write
  set_user_level-Leaves level = mutate-Leaves j _ (λ o. rw aside.level)

  set_expiration-Leaves : (format : ℤ → String) (z : ℤ) → Leaves j (set_expiration format z)
  unfolding set_expiration last_write
  set_expiration-Leaves format (pos zero) db = refl
  set_expiration-Leaves format (pos (suc n)) db =
      mutate-Leaves j _ (λ o. rw (aside.expiry, aside.expiry_text)) db
  set_expiration-Leaves format (negsuc n) db =
      mutate-Leaves j _ (λ o. rw (aside.expiry, aside.expiry_text)) db

  decide_pro-Leaves : (u : User) → Leaves j (decide_pro u)
  unfolding decide_pro set_pro_user last_write
  decide_pro-Leaves u db = mutate-Leaves j _ (λ o. rw aside.pro) db

  set_devices-Leaves : (ds : List Device) → Leaves j (set_devices ds)
  unfolding set_devices last_write
  set_devices-Leaves [] db = refl
  set_devices-Leaves (d ∷ ds) db = mutate-Leaves j _ (λ o. rw aside.devices) db

  pub cache_profile-Leaves : (format : ℤ → String) (u : User) → Leaves j (cache_profile format u)
  unfolding cache_profile
  cache_profile-Leaves format u =
      let contact : Call = cache_email u.email then_ cache_referral u.referral in
      let level : Call = contact then_ set_user_level u.user_level in
      let expiry : Call = level then_ set_expiration format u.expiration in
      let status : Call = expiry then_ decide_pro u in
      then-Leaves j status (set_devices u.devices)
        (then-Leaves j expiry (decide_pro u)
          (then-Leaves j level (set_expiration format u.expiration)
            (then-Leaves j contact (set_user_level u.user_level)
              (then-Leaves j (cache_email u.email) (cache_referral u.referral)
                (cache_email-Leaves u.email) (cache_referral-Leaves u.referral))
              (set_user_level-Leaves u.user_level))
            (set_expiration-Leaves format u.expiration))
          (decide_pro-Leaves u))
        (set_devices-Leaves u.devices)

-- The new identity, after a call without an error; the old one, after a call with an error.
abbrev pub Replaced : ℤ → String → Db → Bool × Db → Type 0
Replaced id token db (true, db') =
    (lookup "userid" db'.m ≡ some (int64 id)) × (lookup "token" db'.m ≡ some (text token))
Replaced id token db (false, db') =
    (lookup "userid" db'.m ≡ lookup "userid" db.m) × (lookup "token" db'.m ≡ lookup "token" db.m)

write_at-Replaced :
    (id : ℤ) (token : String) (fs : List Bool) (db : Db)
    → Replaced id token db (write_at fs (("userid", int64 id) ∷ ("token", text token) ∷ []) db)
unfolding last_write
write_at-Replaced id token [] db =
    (lookup-insert_all _ db.m "userid", lookup-insert_all _ db.m "token")
write_at-Replaced id token (false ∷ fs) db =
    (lookup-insert_all _ db.m "userid", lookup-insert_all _ db.m "token")
write_at-Replaced id token (true ∷ fs) db = (refl, refl)

pub Replaced-since :
    (id : ℤ) (token : String) (old db : Db) (o : Bool × Db)
    → lookup "userid" db.m ≡ lookup "userid" old.m
    → lookup "token" db.m ≡ lookup "token" old.m
    → Replaced id token db o
    → Replaced id token old o
Replaced-since id token old db (true, db') same_id same_token r = r
Replaced-since id token old db (false, db') same_id same_token r = (r.0 ∙ same_id, r.1 ∙ same_token)

pub continue-Replaced :
    (id : ℤ) (token : String) (old : Db) (o : Bool × Db)
    → lookup "userid" o.1.m ≡ lookup "userid" old.m
    → lookup "token" o.1.m ≡ lookup "token" old.m
    → Replaced id token old (continue o (set_user_id_and_token id token))
unfolding set_user_id_and_token mutate
continue-Replaced id token old (true, db) same_id same_token =
    Replaced-since id token old db _ same_id same_token (write_at-Replaced id token db.faults db)
continue-Replaced id token old (false, db) same_id same_token = (same_id, same_token)

-- Whichever transactions fail: where the caching of a user's details returns no error, the user id and
-- the token are those of the user; where it returns an error, both are what they were.
pub cache_user_detail-Replaced :
    (format : ℤ → String) (u : User) (db : Db)
    → Replaced u.user_id u.token db (cache_user_detail format u db)
unfolding cache_user_detail
cache_user_detail-Replaced format u db =
    continue-Replaced u.user_id u.token db (cache_profile format u db)
      (cache_profile-Leaves "userid" far_id format u db)
      (cache_profile-Leaves "token" far_token format u db)
  where
    far_id : IsAside "userid"
    far_id = record {
      email = refl;
      referral = refl;
      level = refl;
      expiry_text = refl;
      expiry = refl;
      pro = refl;
      devices = refl;
    }

    far_token : IsAside "token"
    far_token = record {
      email = refl;
      referral = refl;
      level = refl;
      expiry_text = refl;
      expiry = refl;
      pro = refl;
      devices = refl;
    }

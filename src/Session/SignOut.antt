-- ===== src/Session/SignOut.antt =====
-- What is left of an account after it was signed out (internalsdk/session_model.go).
use lantern_client.Prelude.{
  ◌≡◌, refl, ◌∙◌, ap, String, Bool, true, false, Option, some, none, List, [], ◌∷◌, ℤ, Dict, lookup,
  last_write, lookup-insert_all, Bool-cases, inl, inr, ◌==◌,
}
use lantern_client.Pro.User.{User, UserDataResponse, Result, ok, err}
use lantern_client.Session.Db.{
  DbValue, text, bool, nil, Db, Call, write_at, mutate, continue, ◌then_◌, ignore, fail,
  set_pro_user, set_user_id_and_token, set_logged_in,
}
use lantern_client.Session.Account.{
  is_zero, create_found, user_create, clear_local_user_data, sign_out,
}
use lantern_client.Session.Identity.{
  Leaves, mutate-Leaves, then-Leaves, Replaced, continue-Replaced,
}

-- What a transaction that succeeds has written.
write_at-wrote :
    (j : String) (values : Dict DbValue) (fs : List Bool) (db : Db)
    → (write_at fs values db).0 ≡ true
    → lookup j (write_at fs values db).1.m ≡ last_write j values (lookup j db.m)
write_at-wrote j values [] db e = lookup-insert_all values db.m j
write_at-wrote j values (false ∷ fs) db e = lookup-insert_all values db.m j
write_at-wrote j values (true ∷ fs) db e = absurd (cc)

mutate-wrote :
    (j : String) (values : Dict DbValue) (db : Db)
    → (mutate values db).0 ≡ true
    → lookup j (mutate values db).1.m ≡ last_write j values (lookup j db.m)
unfolding mutate
mutate-wrote j values db e = write_at-wrote j values db.faults db e

-- A sequence that returns no error has run both its calls.
continue-both :
    (o : Bool × Db) (q : Call)
    → (continue o q).0 ≡ true
    → (o.0 ≡ true) × ((q o.1).0 ≡ true) × (continue o q ≡ q o.1)
continue-both (true, db) q e = (refl, e, refl)
continue-both (false, db) q e = absurd (cc)

abbrev pub Cleared : Db → Type 0
Cleared db =
    (lookup "prouser" db.m ≡ some (bool false))
    × (lookup "emailAddress" db.m ≡ some (text ""))
    × (lookup "user_salt" db.m ≡ some nil)

set_logged_in-Leaves :
    (j : String) (b : Bool) → ("IsUserLoggedIn" == j) ≡ false → Leaves j (ignore (set_logged_in b))
unfolding set_logged_in last_write
set_logged_in-Leaves j b ne = mutate-Leaves j _ (λ o. rw ne)

abbrev wiped : Dict DbValue
wiped = ("user_salt", nil) ∷ ("emailAddress", text "") ∷ ("/bandwidth", nil) ∷ []

abbrev wipe : Call
wipe db = mutate wiped db

set_pro_user-Leaves : (j : String) (b : Bool) → ("prouser" == j) ≡ false → Leaves j (set_pro_user b)
unfolding set_pro_user last_write
set_pro_user-Leaves j b ne = mutate-Leaves j _ (λ o. rw ne)

kept_after :
    (j : String) (v : DbValue) (db : Db)
    → ("IsUserLoggedIn" == j) ≡ false
    → ("prouser" == j) ≡ false
    → ((o : Option DbValue) → last_write j wiped o ≡ some v)
    → (clear_local_user_data db).0 ≡ true
    → lookup j (clear_local_user_data db).1.m ≡ some v
unfolding clear_local_user_data
kept_after j v db ne_log ne_pro written e =
    let (first, last, same) =
      continue-both ((wipe then_ ignore (set_logged_in false)) db) (set_pro_user false) e in
    let (wiped_ok, _, same_log) = continue-both (wipe db) (ignore (set_logged_in false)) first in
    ap (λ (o : Bool × Db). lookup j o.1.m) same
    ∙ set_pro_user-Leaves j false ne_pro _
    ∙ ap (λ (o : Bool × Db). lookup j o.1.m) same_log
    ∙ set_logged_in-Leaves j false ne_log _
    ∙ mutate-wrote j wiped db wiped_ok
    ∙ written _

clear_local_user_data-Cleared :
    (db : Db) → (clear_local_user_data db).0 ≡ true → Cleared (clear_local_user_data db).1
unfolding clear_local_user_data set_pro_user last_write
clear_local_user_data-Cleared db e = (
  pro_cleared,
  kept_after "emailAddress" (text "") db refl refl (λ o. refl) e,
  kept_after "user_salt" nil db refl refl (λ o. refl) e,
)
  where
    pro_cleared : lookup "prouser" (clear_local_user_data db).1.m ≡ some (bool false)
    pro_cleared =
        let (first, last, same) =
          continue-both ((wipe then_ ignore (set_logged_in false)) db) (set_pro_user false) e in
        ap (λ (o : Bool × Db). lookup "prouser" o.1.m) same ∙ mutate-wrote "prouser" _ _ last

clear_local_user_data-Leaves :
    (j : String)
    → ((o : Option DbValue) → last_write j wiped o ≡ o)
    → ("IsUserLoggedIn" == j) ≡ false
    → ("prouser" == j) ≡ false
    → Leaves j clear_local_user_data
unfolding clear_local_user_data
clear_local_user_data-Leaves j aside ne_log ne_pro =
    let logged : Call = wipe then_ ignore (set_logged_in false) in
    then-Leaves j logged (set_pro_user false)
      (then-Leaves j wipe (ignore (set_logged_in false)) (mutate-Leaves j wiped aside)
        (set_logged_in-Leaves j false ne_log))
      (set_pro_user-Leaves j false ne_pro)

-- A sign-out without an error has cleared the account and has the identity of the user that the
-- server created; one with an error has left the identity as it was.
abbrev pub SignedOut : Result UserDataResponse → Db → Bool × Db → Type 0
SignedOut resp db (true, db') =
    (r : UserDataResponse) × (u : User) × (resp ≡ ok r)
    × (r.user ≡ some u)
    × (is_zero u.user_id ≡ false)
    × Cleared db'
    × Replaced u.user_id u.token db (true, db')
SignedOut resp db (false, db') =
    (lookup "userid" db'.m ≡ lookup "userid" db.m) × (lookup "token" db'.m ≡ lookup "token" db.m)

module _ (resp : Result UserDataResponse) (db : Db) where
  SignedOut-fail :
      (o : Bool × Db)
      → lookup "userid" o.1.m ≡ lookup "userid" db.m
      → lookup "token" o.1.m ≡ lookup "token" db.m
      → SignedOut resp db (continue o fail)
  SignedOut-fail (true, d) same_id same_token = (same_id, same_token)
  SignedOut-fail (false, d) same_id same_token = (same_id, same_token)

  SignedOut-created :
      (r : UserDataResponse) (u : User) (res : Bool × Db)
      → resp ≡ ok r
      → r.user ≡ some u
      → is_zero u.user_id ≡ false
      → (res.0 ≡ true → Cleared res.1)
      → Replaced u.user_id u.token db res
      → SignedOut resp db res
  SignedOut-created r u (true, d) e_r e_u new cleared replaced =
      (r, u, e_r, e_u, new, cleared refl, replaced)
  SignedOut-created r u (false, d) e_r e_u new cleared replaced = replaced

  Cleared-since :
      (id : ℤ) (token : String) (o : Bool × Db)
      → (o.0 ≡ true → Cleared o.1)
      → (continue o (set_user_id_and_token id token)).0 ≡ true
      → Cleared (continue o (set_user_id_and_token id token)).1
  unfolding set_user_id_and_token last_write
  Cleared-since id token (true, d) cleared e =
      let (pro, email, salt) = cleared refl in
      (
        mutate-Leaves "prouser" _ (λ v. refl) d ∙ pro,
        mutate-Leaves "emailAddress" _ (λ v. refl) d ∙ email,
        mutate-Leaves "user_salt" _ (λ v. refl) d ∙ salt,
      )
  Cleared-since id token (false, d) cleared e = absurd (cc)

same_id : (db : Db) → lookup "userid" (clear_local_user_data db).1.m ≡ lookup "userid" db.m
unfolding last_write
same_id = clear_local_user_data-Leaves "userid" (λ o. refl) refl refl

same_token : (db : Db) → lookup "token" (clear_local_user_data db).1.m ≡ lookup "token" db.m
unfolding last_write
same_token = clear_local_user_data-Leaves "token" (λ o. refl) refl refl

created_user :
    (r : UserDataResponse) (found : Option User) (db : Db)
    → r.user ≡ found
    → SignedOut (ok r) db (continue (clear_local_user_data db) (create_found found))
unfolding create_found
created_user r none db e = SignedOut-fail (ok r) db _ (same_id db) (same_token db)
created_user r (some u) db e = elim (Bool-cases (is_zero u.user_id)) [
  | inl z ↦ rw z (SignedOut-fail (ok r) db _ (same_id db) (same_token db))
  | inr z ↦ rw z (
      SignedOut-created (ok r) db r u _ refl e z
        (Cleared-since (ok r) db u.user_id u.token _ (clear_local_user_data-Cleared db))
        (continue-Replaced u.user_id u.token db _ (same_id db) (same_token db)))
]

-- Whichever transactions fail: a sign-out that returns no error was confirmed by a new user with an id
-- other than 0, whose id and token are stored, and then the Pro flag, the e-mail address and the salt
-- are cleared. One that returns an error has left the id and the token of the old user.
pub sign_out-SignedOut :
    (answer : Option Bool) (resp : Result UserDataResponse) (db : Db)
    → SignedOut resp db (sign_out answer resp db)
unfolding sign_out user_create
sign_out-SignedOut none resp db = (refl, refl)
sign_out-SignedOut (some false) resp db = (refl, refl)
sign_out-SignedOut (some true) (err e) db = SignedOut-fail (err e) db _ (same_id db) (same_token db)
sign_out-SignedOut (some true) (ok r) db = created_user r r.user db refl

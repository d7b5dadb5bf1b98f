-- ===== src/Session/SignIn.antt =====
-- The identity after a sign-in, after a sign-in that meets the limit of devices, and after a refresh
-- (internalsdk/session_model.go).
use lantern_client.Prelude.{
  ◌≡◌, refl, ◌∙◌, String, Bool, true, false, Option, some, none, List, ℕ, ℤ, lookup, last_write,
  Bool-cases, inl, inr, ◌==◌,
}
use lantern_client.Pro.User.{User, Device, UserDataResponse, Result, ok, err}
use lantern_client.Session.Db.{Db, set_logged_in, save_user_salt, get_bool}
use lantern_client.Session.Account.{logged_in, device_limit_flow, user_detail, cache_found}
use lantern_client.Session.Identity.{
  mutate-Leaves, Replaced, Replaced-since, continue-Replaced, cache_user_detail-Replaced,
}

saved-Leaves :
    (j : String) (salt : List ℕ)
    → ("IsUserLoggedIn" == j) ≡ false
    → ("user_salt" == j) ≡ false
    → (db : Db) → lookup j (save_user_salt salt (set_logged_in true db).1).1.m ≡ lookup j db.m
unfolding set_logged_in save_user_salt last_write
saved-Leaves j salt ne_log ne_salt db =
    mutate-Leaves j _ (λ o. rw ne_salt) _ ∙ mutate-Leaves j _ (λ o. rw ne_log) db

-- Whichever transactions fail, what is stored of a sign-in and of a sign-in that meets the limit of
-- devices has, where it returns no error, the id and the token that the server answered with, and
-- where it returns an error, those of before.
pub logged_in-Replaced :
    (format : ℤ → String) (email : String) (salt : List ℕ) (u : User) (ds : List Device) (db : Db)
    → Replaced u.user_id u.token db (logged_in format email salt u db)
      × Replaced u.user_id u.token db (device_limit_flow ds u.user_id u.token db)
unfolding logged_in device_limit_flow last_write
logged_in-Replaced format email salt u ds db =
    let saved : Db = (save_user_salt salt (set_logged_in true db).1).1 in
    (
      Replaced-since u.user_id u.token db saved _ (saved-Leaves "userid" salt refl refl db)
          (saved-Leaves "token" salt refl refl db)
          (cache_user_detail-Replaced format (record u { email = email }) saved),
      continue-Replaced u.user_id u.token db _ (mutate-Leaves "userid" _ (λ o. refl) db)
          (mutate-Leaves "token" _ (λ o. refl) db),
    )

-- What a refresh does, by the answer of the server.
abbrev RefreshedAt : Option User → Db → Bool × Db → Type 0
RefreshedAt none db o = o ≡ (false, db)
RefreshedAt (some u) db o = Replaced u.user_id u.token db o

abbrev Refreshed : Result UserDataResponse → Db → Bool × Db → Type 0
Refreshed (err e) db o = o ≡ (true, db)
Refreshed (ok r) db o = RefreshedAt r.user db o

cache_found-RefreshedAt :
    (format : ℤ → String) (found : Option User) (db : Db)
    → RefreshedAt found db (cache_found format found db)
unfolding cache_found
cache_found-RefreshedAt format none db = refl
cache_found-RefreshedAt format (some u) db = elim (Bool-cases (get_bool "IsUserLoggedIn" db)) [
  | inl e ↦ rw e (cache_user_detail-Replaced format (record u { email = "" }) db)
  | inr e ↦ rw e (cache_user_detail-Replaced format u db)
]

-- A refresh whose request fails returns no error and changes nothing; one that is answered without a
-- user returns an error and changes nothing; else the id and the token are those of the user where it
-- returns no error, and those of before where it returns one.
user_detail-Refreshed :
    (format : ℤ → String) (resp : Result UserDataResponse) (db : Db)
    → Refreshed resp db (user_detail format resp db)
unfolding user_detail
user_detail-Refreshed format (err e) db = refl
user_detail-Refreshed format (ok r) db = cache_found-RefreshedAt format r.user db

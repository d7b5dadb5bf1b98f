-- ===== src/Session/Deleted.antt =====
-- The deletion of an account (internalsdk/session_model.go).
use lantern_client.Prelude.{
  ◌≡◌, refl, ◌⊎◌, inl, inr, String, Bool, true, false, Option, some, none, List, [], ◌∷◌, ℕ, pos,
  Bool-cases, Option-cases, ◌==◌, to_lower,
}
use lantern_client.Pro.User.{User, UserDataResponse, Result, ok}
use lantern_client.Session.Db.{int, text, bool, Db, Call, mutate, continue, ◌then_◌}
use lantern_client.Session.Account.{is_zero, user_create, clear_local_user_data, sign_out}
use lantern_client.Session.Values.{email, get_device_id}
use lantern_client.Session.Identity.{Replaced}
use lantern_client.Session.SignOut.{Cleared, SignedOut, sign_out-SignedOut}
use lantern_client.Session.Secrets.{
  Srp, Prepared, get_user_salt, new_client, proof_for, prove, deleted, delete_local, delete_account,
}

then_assoc : (o : Bool × Db) (q r : Call) → continue (continue o q) r ≡ continue o (q then_ r)
then_assoc (true, db) q r = refl
then_assoc (false, db) q r = refl

-- The server created a user, whose identity is stored, and the e-mail address, the salt and the Pro flag are
-- cleared; the rest of what is stored of the old account, as its referral code, its level, its expiration
-- and its devices, stays.
abbrev pub Renewed : Result UserDataResponse → Db → Type 0
Renewed resp db =
    (r : UserDataResponse) × (u : User) × (resp ≡ ok r)
    × (r.user ≡ some u)
    × (is_zero u.user_id ≡ false)
    × Cleared db
    × Replaced u.user_id u.token db (true, db)

-- The server was given a proof of the password, after it had proved that it knows the account.
abbrev pub IsProved :
    (srp : Srp)
    → (String → List ℕ → Option Prepared)
    → (String → List ℕ → String → Bool)
    → String
    → Option (List ℕ)
    → Db
    → Type 0
IsProved srp prepare delete password salt db =
    (s : List ℕ) × (p : Prepared) × (proof : List ℕ) × (salt ≡ some s)
    × (let key = new_client srp password (to_lower (email db)) s in
        (prepare (to_lower (email db)) (srp.public key) ≡ some p)
        × (srp.set_others_public key p.b ≡ true)
        × (srp.good_server_proof key s (to_lower (email db)) p.proof ≡ true)
        × (srp.client_proof key ≡ some proof)
        × (delete (to_lower (email db)) proof (get_device_id db) ≡ true))

SignedOut-Renewed :
    (resp : Result UserDataResponse) (db : Db) (o : Bool × Db)
    → SignedOut resp db o
    → o.0 ≡ true
    → Renewed resp o.1
SignedOut-Renewed resp db (true, d) s e = s
SignedOut-Renewed resp db (false, d) s e = absurd (cc)

continue-Renewed :
    (resp : Result UserDataResponse) (o : Bool × Db)
    → (continue o (sign_out (some true) resp)).0 ≡ true
    → Renewed resp (continue o (sign_out (some true) resp)).1
continue-Renewed resp (true, d) e =
    SignedOut-Renewed resp d (sign_out (some true) resp d) (sign_out-SignedOut (some true) resp d) e
continue-Renewed resp (false, d) e = absurd (cc)

delete_local-Renewed :
    (resp : Result UserDataResponse) (db : Db)
    → (delete_local resp db).0 ≡ true
    → Renewed resp (delete_local resp db).1
unfolding delete_local sign_out
delete_local-Renewed resp db e =
    let first =
      mutate (("emailAddress", text "") ∷ ("userid", int (pos 0)) ∷ ("prouser", bool false) ∷ [])
        db in
    let same = then_assoc first clear_local_user_data (user_create resp) in
    rw (same) (continue-Renewed resp first (rw (← same) e))

-- The outcome of a deletion: without an error, it was proved and the identity is renewed; with an error,
-- nothing has changed, or it was proved.
unfoldable pub Deletion :
    (srp : Srp)
    → (String → List ℕ → Option Prepared)
    → (String → List ℕ → String → Bool)
    → Result UserDataResponse
    → String
    → Option (List ℕ)
    → Db
    → Bool × Db
    → Type 0
Deletion srp prepare delete resp password salt db (true, db') =
    IsProved srp prepare delete password salt db × Renewed resp db'
Deletion srp prepare delete resp password salt db (false, db') =
    (db' ≡ db) ⊎ IsProved srp prepare delete password salt db

module _ (srp : Srp) (prepare : String → List ℕ → Option Prepared)
    (delete : String → List ℕ → String → Bool) (resp : Result UserDataResponse) (password : String)
    (db : Db) where
  deleted-Deletion :
      (salt : Option (List ℕ)) (s : List ℕ) (p : Prepared) (proof : List ℕ)
      → salt ≡ some s
      → prepare (to_lower (email db)) (srp.public (new_client srp password (to_lower (email db)) s))
        ≡ some p
      → srp.set_others_public (new_client srp password (to_lower (email db)) s) p.b ≡ true
      → srp.good_server_proof
          (new_client srp password (to_lower (email db)) s)
          s
          (to_lower (email db))
          p.proof
        ≡ true
      → srp.client_proof (new_client srp password (to_lower (email db)) s) ≡ some proof
      → Deletion srp prepare delete resp password salt db
          (deleted srp delete resp (to_lower (email db)) (some proof) db)
  unfolding Deletion deleted
  deleted-Deletion salt s p proof e_salt e_p public_ok proof_ok e_proof =
      elim (Bool-cases (delete (to_lower (email db)) proof (get_device_id db))) [
        | inr refused ↦ rw (refused) (inl refl)
        | inl accepted ↦
            let proved : IsProved srp prepare delete password salt db =
              (s, p, proof, e_salt, (e_p, public_ok, proof_ok, e_proof, accepted)) in
            rw (accepted) (ended (delete_local resp db) proved (delete_local-Renewed resp db))
      ]
    where
      ended :
          (o : Bool × Db)
          → IsProved srp prepare delete password salt db
          → (o.0 ≡ true → Renewed resp o.1)
          → Deletion srp prepare delete resp password salt db o
      ended (true, db') proved renewed = (proved, renewed refl)
      ended (false, db') proved renewed = inr proved

  proved-Deletion :
      (salt : Option (List ℕ))
      → Deletion srp prepare delete resp password salt db (
          deleted srp delete resp
            (to_lower (email db))
            (prove srp prepare password (to_lower (email db)) salt)
            db)
  unfolding Deletion deleted prove proof_for
  proved-Deletion none = inl refl
  proved-Deletion (some s) =
      let key = new_client srp password (to_lower (email db)) s in
      elim (Option-cases (prepare (to_lower (email db)) (srp.public key))) [
        | inl unknown ↦ rw (unknown) (inl refl)
        | inr (p, e_p) ↦ elim (Bool-cases (srp.set_others_public key p.b)) [
          | inr bad ↦ rw (e_p, bad) (inl refl)
          | inl public_ok ↦ elim (Bool-cases (srp.has_key key)) [
            | inr no_key ↦ rw (e_p, public_ok, no_key) (inl refl)
            | inl with_key ↦
                elim (Bool-cases (srp.good_server_proof key s (to_lower (email db)) p.proof)) [
                  | inr forged ↦ rw (e_p, public_ok, with_key, forged) (inl refl)
                  | inl proof_ok ↦ elim (Option-cases (srp.client_proof key)) [
                    | inl no_proof ↦ rw (e_p, public_ok, with_key, proof_ok, no_proof) (inl refl)
                    | inr (proof, e_proof) ↦
                        rw (e_p, public_ok, with_key, proof_ok, e_proof)
                          (deleted-Deletion (some s) s p proof refl e_p public_ok proof_ok e_proof)
                  ]
                ]
          ]
        ]
      ]

  -- Whichever transactions fail: a deletion without an error was sent to the server with a proof of the
  -- password, made only after the server's own proof had been checked; then the identity of a new user is
  -- stored, and the e-mail address, the salt and the Pro flag are cleared. A deletion with an
  -- error has changed nothing, or the server had accepted it.
  pub delete_account-Deletion :
      (salts : String → Option (List ℕ))
      → Deletion srp prepare delete resp password
          (get_user_salt salts (to_lower (email db)) db)
          db
          (delete_account srp salts prepare delete resp password db)
  unfolding Deletion delete_account deleted
  delete_account-Deletion salts = elim (Bool-cases (email db == "")) [
    | inl nobody ↦ rw (nobody) (inl refl)
    | inr somebody ↦ rw (somebody) (proved-Deletion (get_user_salt salts (to_lower (email db)) db))
  ]

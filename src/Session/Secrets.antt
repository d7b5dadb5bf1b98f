-- ===== src/Session/Secrets.antt =====
-- What internalsdk/session_model.go does with passwords: signing up, recovery, a change of the e-mail address
-- and the deletion of an account. The arithmetic of SRP and the derivation of keys are other packages' and
-- `Srp` names their operations, on the client's key; `none` is an error. What the server answers is an
-- argument, `none` or `false` where it refuses.
use Prim.Native.String.{◌++◌ as append}
use lantern_client.Prelude.{
  ℕ, String, Bool, true, false, not, Option, some, none, List, [], ◌∷◌, pos, if◌then◌else◌, ◌==◌,
  length, eqb, to_lower,
}
use lantern_client.Pro.User.{UserDataResponse, Result}
use lantern_client.Session.Db.{
  Db, Call, int, text, bool, bytes, mutate, fail, ◌then_◌, ignore, get_bytes, set_email,
  save_user_salt, set_logged_in,
}
use lantern_client.Session.Account.{user_create, clear_local_user_data}
use lantern_client.Session.Values.{email, get_device_id}

pub record Srp : Type 1 where
  pub Key : Type 0
  pub client : String → List ℕ → Key
  pub public : Key → List ℕ
  pub verifier : Key → Option (List ℕ)
  pub set_others_public : Key → List ℕ → Bool
  pub has_key : Key → Bool
  pub good_server_proof : Key → List ℕ → String → List ℕ → Bool
  pub client_proof : Key → Option (List ℕ)

-- The answer to `LoginPrepare`.
pub record Prepared : Type 0 where
  pub b : List ℕ
  pub proof : List ℕ

-- `getUserSalt`: a salt of 16 bytes is in the database, or the server is asked.
unfoldable pub get_user_salt : (String → Option (List ℕ)) → String → Db → Option (List ℕ)
get_user_salt server email db =
    let cached = get_bytes "user_salt" db in
    if eqb (length cached) 16 then some cached else server (to_lower email)

-- The end of `deleteAccount`, once the server has deleted the account.
unfoldable pub delete_local : Result UserDataResponse → Call
delete_local resp =
    mutate (("emailAddress", text "") ∷ ("userid", int (pos 0)) ∷ ("prouser", bool false) ∷ [])
    then_ clear_local_user_data
    then_ user_create resp

-- What is done with a verifier: it is sent, and where the server takes it, a value is stored.
unfoldable pub verified : Option (List ℕ) → (List ℕ → Bool) → Call → Call
verified none accept store = fail
verified (some v) accept store = if accept v then store else fail

module _ (srp : Srp) where
  -- `srp.NewSRPClient` of `GenerateEncryptedKey`; `client` gets the password with the address, in lower
  -- case, behind it.
  unfoldable pub new_client : String → String → List ℕ → srp.Key
  new_client password email salt = srp.client (append password (to_lower email)) salt

  -- The checks of the server's answer, and the client's proof.
  unfoldable pub proof_for : srp.Key → List ℕ → String → Option Prepared → Option (List ℕ)
  proof_for key salt email none = none
  proof_for key salt email (some p) =
      if not (srp.set_others_public key p.b)
      then none
      else if not (srp.has_key key)
      then none
      else if not (srp.good_server_proof key salt email p.proof)
      then none
      else srp.client_proof key

  -- From the salt to the proof, as `startChangeEmail` and `deleteAccount` do it. `prepare` is the request
  -- with the address and the client's public key.
  unfoldable pub prove :
      (String → List ℕ → Option Prepared) → String → String → Option (List ℕ) → Option (List ℕ)
  prove prepare password email none = none
  prove prepare password email (some salt) =
      let key = new_client password email salt in
      proof_for key salt email (prepare email (srp.public key))

  -- `startChangeEmail`; the flag says that there was no error.
  unfoldable pub start_change_email :
      (String → Option (List ℕ))
      → (String → List ℕ → Option Prepared)
      → (String → String → List ℕ → Bool)
      → String
      → String
      → String
      → Db
      → Bool
  start_change_email salts prepare change old new password db =
      sent (prove prepare password (to_lower old) (get_user_salt salts (to_lower old) db))
    where
      sent : Option (List ℕ) → Bool
      sent none = false
      sent (some proof) = change (to_lower old) (to_lower new) proof

  -- `completeChangeEmail`; `salt` is the new one.
  unfoldable pub complete_change_email :
      (String → String → List ℕ → List ℕ → String → Bool)
      → List ℕ
      → String
      → String
      → String
      → String
      → Call
  complete_change_email change salt old new password code =
      verified (srp.verifier (new_client password new salt)) (λ v. change old new salt v code)
        (set_email new)

  -- `completeRecoveryByEmail`, up to the goroutine that refreshes the user.
  unfoldable pub complete_recovery_by_email :
      (String → String → List ℕ → List ℕ → Bool) → List ℕ → String → String → String → Call
  complete_recovery_by_email recover salt email code password =
      verified (srp.verifier (new_client password (to_lower email) salt))
        (λ v. recover (to_lower email) code salt v) (ignore (save_user_salt salt))

  unfoldable pub deleted :
      (String → List ℕ → String → Bool) → Result UserDataResponse → String → Option (List ℕ) → Call
  deleted delete resp address none db = (false, db)
  deleted delete resp address (some proof) db =
      if delete address proof (get_device_id db) then delete_local resp db else (false, db)

  -- `deleteAccount`.
  unfoldable pub delete_account :
      (String → Option (List ℕ))
      → (String → List ℕ → Option Prepared)
      → (String → List ℕ → String → Bool)
      → Result UserDataResponse
      → String
      → Call
  unfolding deleted
  delete_account salts prepare delete resp password db =
      if email db == ""
      then (false, db)
      else deleted delete resp (to_lower (email db))
          (prove prepare password (to_lower (email db))
            (get_user_salt salts (to_lower (email db)) db))
          db

-- `signup`, given the salt of the new account (`none` is an error). The plans that are fetched in the
-- background are a later `payment_methods`.
unfoldable pub signup : String → Option (List ℕ) → Call
signup email none = fail
signup email (some salt) =
    mutate (("user_salt", bytes salt) ∷ ("emailAddress", text (to_lower email)) ∷ [])
    then_ set_logged_in true

-- `signupEmailResend`.
unfoldable pub signup_email_resend :
    (String → Option (List ℕ)) → (String → List ℕ → Bool) → String → Db → Bool
signup_email_resend salts resend email db = resent (get_user_salt salts email db)
  where
    resent : Option (List ℕ) → Bool
    resent none = false
    resent (some salt) = resend email salt

-- `validateRecoveryByEmail`, given the answer of the server.
unfoldable pub validate_recovery_by_email : Option Bool → Bool
validate_recovery_by_email none = false
validate_recovery_by_email (some valid) = valid

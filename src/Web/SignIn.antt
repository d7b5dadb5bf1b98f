-- ===== src/Web/SignIn.antt =====
-- A sign-in of the session (`login` of internalsdk/session_model.go) through the client of internalsdk/auth.
use lantern_client.Prelude.{
  ◌≡◌, refl, ℕ, String, Bool, true, false, Option, none, some, List, ℤ, Bool-cases, Option-cases,
  inl, inr, >>=-eq-some, some_eq, ap, ◌∙◌, ◌>>=◌, if◌then◌else◌, to_lower,
}
use lantern_client.Session.Db.{Db, continue, fail}
use lantern_client.Session.Values.{get_device_id}
use lantern_client.Session.Secrets.{Srp, Prepared, new_client, proof_for, prove}
use lantern_client.Session.Login.{LoginResponse, login, answered}
use lantern_client.Session.Account.{device_limit_flow}
use lantern_client.Web.Client.{Params}
use lantern_client.Web.Auth.{Messages, has_client, get_salt, login_prepare, send_login, sign_in}

-- The proof was made after the server's own: the server has answered to the client's public key with a
-- key that is taken, a session key is there, and the proof of the server is good.
pub record IsProved (srp : Srp) (prepare : String → List ℕ → Option Prepared)
    (password address : String) (salt proof : List ℕ) : Type 0 where
  pub prepared : Prepared
  pub server_answered :
      prepare address (srp.public (new_client srp password address salt)) ≡ some prepared
  pub key_taken : srp.set_others_public (new_client srp password address salt) prepared.b ≡ true
  pub key_there : srp.has_key (new_client srp password address salt) ≡ true
  pub server_proved :
      srp.good_server_proof (new_client srp password address salt) salt address prepared.proof
      ≡ true
  pub made : srp.client_proof (new_client srp password address salt) ≡ some proof

module _ (srp : Srp) (prepare : String → List ℕ → Option Prepared) (password address : String)
    (salt proof : List ℕ) where
  key : srp.Key
  key = new_client srp password address salt

  checked :
      (p : Prepared)
      → prepare address (srp.public key) ≡ some p
      → proof_for srp key salt address (some p) ≡ some proof
      → IsProved srp prepare password address salt proof
  unfolding proof_for key
  checked p answer h = elim (Bool-cases (srp.set_others_public key p.b)) [
    | inr bad ↦ absurd (cc (rw bad at h))
    | inl taken ↦ elim (Bool-cases (srp.has_key key)) [
      | inr no_key ↦ absurd (cc (rw (taken, no_key) at h))
      | inl there ↦ elim (Bool-cases (srp.good_server_proof key salt address p.proof)) [
        | inr forged ↦ absurd (cc (rw (taken, there, forged) at h))
        | inl good ↦ record {
          prepared = p;
          server_answered = answer;
          key_taken = taken;
          key_there = there;
          server_proved = good;
          made = rw (taken, there, good) at h;
        }
      ]
    ]
  ]

  prove-IsProved :
      prove srp prepare password address (some salt) ≡ some proof
      → IsProved srp prepare password address salt proof
  unfolding prove proof_for key
  prove-IsProved h = elim (Option-cases (prepare address (srp.public key))) [
    | inl unknown ↦ absurd (cc (rw unknown at h))
    | inr (p, answer) ↦ checked p answer (rw answer at h)
  ]

fails : (p : Bool × Db) → (continue p fail).0 ≡ false
fails (true, db) = refl
fails (false, db) = refl

-- A sign-in without an error had an answer that says success.
answered-success :
    (format : ℤ → String) (email : String) (o : Option LoginResponse) (db : Db)
    → (answered format email o db).0 ≡ true
    → (r : LoginResponse) × (o ≡ some r) × (r.success ≡ true)
unfolding answered
answered-success format email none db h = absurd (cc)
answered-success format email (some r) db h = elim (Bool-cases r.success) [
  | inl ok ↦ (r, refl, ok)
  | inr limit ↦
      absurd (cc (rw limit at h, fails (device_limit_flow r.devices r.legacy_id r.legacy_token db)))
]

only_then :
    {A : Type 0} (b : Bool) (o : Option A) (a : A) → (if b then o else none) ≡ some a → o ≡ some a
only_then true o a h = h
only_then false o a h = absurd (cc)

module _ (post : String → List ℕ → Option (List ℕ)) (ms : Messages) (srp : Srp)
    (get : String → Params → Option (List ℕ)) (password address device : String) where
  -- What the server has seen and said at a sign-in.
  pub record Agreed : Type 0 where
    pub salt : List ℕ
    pub proof : List ℕ
    pub response : LoginResponse
    pub salt_sent : get_salt post ms srp get address ≡ some salt
    pub proved : IsProved srp (login_prepare post ms) password address salt proof
    pub accepted : send_login post ms address proof device ≡ some response
    pub success : response.success ≡ true

  sign_in-Agreed :
      (r : LoginResponse)
      → r.success ≡ true
      → (get_salt post ms srp get address >>= λ salt.
          if has_client address password salt
          then (prove srp (login_prepare post ms) password address (some salt) >>= λ proof.
              send_login post ms address proof device >>= λ q. some (record q { salt = salt }))
          else none)
        ≡ some r
      → Agreed
  sign_in-Agreed r ok h =
      let (salt, e_salt, h₁) = >>=-eq-some (get_salt post ms srp get address) _ h in
      let (proof, e_proof, h₂) =
        >>=-eq-some (prove srp (login_prepare post ms) password address (some salt)) _
          (only_then (has_client address password salt) _ r h₁) in
      let (q, e_q, h₃) = >>=-eq-some (send_login post ms address proof device) _ h₂ in
      record {
        salt = salt;
        proof = proof;
        response = q;
        salt_sent = e_salt;
        proved = prove-IsProved srp (login_prepare post ms) password address salt proof e_proof;
        accepted = e_q;
        success = ap (λ (x : LoginResponse). x.success) (some_eq h₃) ∙ ok;
      }

-- Whichever transactions fail: a sign-in of the session that returns no error has got the salt of the
-- address in lower case from the server, has checked the server's proof before it has made its own from
-- the password, and the server has answered that proof, sent with the id of this device, with success.
pub login-Agreed :
    (format : ℤ → String) (post : String → List ℕ → Option (List ℕ)) (ms : Messages) (srp : Srp)
    (get : String → Params → Option (List ℕ)) (email password : String) (db : Db)
    → (login format (sign_in post ms srp get) email password db).0 ≡ true
    → Agreed post ms srp get password (to_lower email) (get_device_id db)
unfolding login sign_in
login-Agreed format post ms srp get email password db h =
    let (r, e, ok) = answered-success format email _ db h in
    sign_in-Agreed post ms srp get password (to_lower email) (get_device_id db) r ok e

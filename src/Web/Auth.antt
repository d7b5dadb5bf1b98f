-- ===== src/Web/Auth.antt =====
-- The client of the authentication servers (internalsdk/auth/auth.go and srp.go). `post` and `get` are `PostPROTOC`
-- and `GetPROTOC` with the bytes of the message that came back (Web.Client); a message is its bytes, made and
-- read by the functions of `Messages`, which stand for protobuf. SRP is that of Session.Secrets.
use lantern_client.Prelude.{
  ℕ, String, Bool, true, false, Option, none, some, List, [], ◌∷◌, if◌then◌else◌, ◌>>=◌, to_lower,
  not, ◌&&◌, ◌==◌,
}
use lantern_client.Web.Client.{Params, entries}
use lantern_client.Session.Secrets.{Srp, Prepared, new_client, prove}
use lantern_client.Session.Login.{LoginResponse}
use lantern_client.Headers.Header.{Header, set}
use lantern_client.Headers.Common.{
  UserConfig, Build, device_id_header, pro_token_header, user_id_header,
  add_common_non_user_headers, add_common_headers_with_options,
}

pub record Messages : Type 0 where
  pub salt_of : List ℕ → Option (List ℕ)
  pub signup_request : String → List ℕ → List ℕ → List ℕ
  pub prepare_request : String → List ℕ → List ℕ
  pub prepared_of : List ℕ → Option Prepared
  pub login_request : String → List ℕ → String → List ℕ
  pub login_of : List ℕ → Option LoginResponse
  pub is_valid : List ℕ → Bool

-- Whether an answer came: the flag of the calls whose answer is empty.
abbrev pub answered : Option (List ℕ) → Bool
answered none = false
answered (some bs) = true

-- Whether `NewSRPClient` of internalsdk/auth/srp.go makes a client; else it gives nil, and the next call
-- on it panics.
unfoldable pub has_client : String → String → List ℕ → Bool
has_client email password [] = false
has_client email password (b ∷ bs) = not (password == "") && not (email == "")

module _ (post : String → List ℕ → Option (List ℕ)) where
  unfoldable pub signup_email_resend_code : List ℕ → Bool
  signup_email_resend_code m = answered (post "/users/signup/resend/email" m)

  unfoldable pub signup_email_confirmation : List ℕ → Bool
  signup_email_confirmation m = answered (post "/users/signup/complete/email" m)

  unfoldable pub start_recovery_by_email : List ℕ → Bool
  start_recovery_by_email m = answered (post "/users/recovery/start/email" m)

  unfoldable pub complete_recovery_by_email : List ℕ → Bool
  complete_recovery_by_email m = answered (post "/users/recovery/complete/email" m)

  unfoldable pub change_email : List ℕ → Bool
  change_email m = answered (post "/users/change_email" m)

  unfoldable pub complete_change_email : List ℕ → Bool
  complete_change_email m = answered (post "/users/change_email/complete/email" m)

  unfoldable pub delete_account : List ℕ → Bool
  delete_account m = answered (post "/users/delete" m)

  unfoldable pub sign_out : List ℕ → Bool
  sign_out m = answered (post "/users/logout" m)

  module _ (ms : Messages) where
    -- `ValidateEmailRecoveryCode`: a code that is not valid is an error too.
    unfoldable pub validate_email_recovery_code : List ℕ → Option Bool
    validate_email_recovery_code m =
        post "/users/recovery/validate/email" m >>= λ bs. if ms.is_valid bs then some true else none

    -- `LoginPrepare`.
    unfoldable pub login_prepare : String → List ℕ → Option Prepared
    login_prepare email a = post "/users/prepare" (ms.prepare_request email a) >>= ms.prepared_of

    -- `login`.
    unfoldable pub send_login : String → List ℕ → String → Option LoginResponse
    send_login email proof device =
        post "/users/login" (ms.login_request email proof device) >>= ms.login_of

    module _ (srp : Srp) where
      -- `SignUp`, given the salt that `GenerateSalt` has drawn; it returns the salt, and the outer `none` is
      -- a panic.
      unfoldable pub sign_up : Option (List ℕ) → String → String → Option (Option (List ℕ))
      sign_up none email password = some none
      sign_up (some s) email password =
          if has_client (to_lower email) password s
          then some (
              srp.verifier (new_client srp password (to_lower email) s) >>= λ v.
              post "/users/signup" (ms.signup_request (to_lower email) s v) >>= λ bs. some s)
          else none

      module _ (get : String → Params → Option (List ℕ)) where
        -- `GetSalt` and `getUserSalt`.
        unfoldable pub get_salt : String → Option (List ℕ)
        get_salt email = get "/users/salt" (entries (("email", to_lower email) ∷ [])) >>= ms.salt_of

        -- `Login`: the response and the salt. `none` is an error, or the panic at a client that is nil.
        unfoldable pub sign_in : String → String → String → Option LoginResponse
        sign_in email password device =
            let address = to_lower email in
            get_salt address >>= λ salt.
            if has_client address password salt
            then (prove srp login_prepare password address (some salt) >>= λ proof.
                send_login address proof device >>= λ r. some (record r { salt = salt }))
            else none

-- `Healthz`, given whether the request succeeded.
unfoldable pub healthz : Option (List ℕ) → Bool
healthz answer = answered answer

-- `prepareUserRequest`: the path of a sign-up gets the headers of the user too. `is_signup` is whether the
-- path ends in /users/signup, and `join` is `strings.Join`.
unfoldable pub prepare_user_request :
    Build → (List String → String) → UserConfig → String → Bool → Header → Header
prepare_user_request b join uc noise is_signup h₀ =
    let h₁ = set b.canon "Content-Type" "application/x-protobuf" h₀ in
    let allowed = join (device_id_header ∷ pro_token_header ∷ user_id_header ∷ []) in
    let h₂ = set b.canon "Access-Control-Allow-Headers" allowed h₁ in
    if is_signup
    then add_common_headers_with_options b uc noise false h₂
    else add_common_non_user_headers b uc noise h₂

-- ===== src/Tests/Web.antt =====
-- Runs of the client of the servers.
use lantern_client.Prelude.{
  ◌≡◌, refl, ℕ, ◌≤◌, ◌<◌, String, Bool, true, false, Option, some, List, [], ◌∷◌, ◌⊎◌, ◌↔◌, ℤ, pos,
  ltb, lookup, ◌==◌, if◌then◌else◌, to_lower,
}
use lantern_client.Session.Db.{
  Db, mutate, set_email, set_referral_code, set_user_level, set_expiration, set_pro_user,
  set_devices, set_user_id_and_token, save_user_salt, set_logged_in, text,
}
use lantern_client.Session.Values.{get_device_id}
use lantern_client.Session.Secrets.{Srp, new_client, proof_for, prove}
use lantern_client.Session.Account.{
  logged_in, cache_user_detail, cache_profile, cache_email, cache_referral, decide_pro,
  cached_status,
}
use lantern_client.Session.Login.{LoginResponse, login, answered, convert_to_user_details}
use lantern_client.Web.Client.{
  Params, Response, is_protobuf, sanitize_response_body, read_response, content_type,
}
use lantern_client.Web.Printed.{AllPrinted, read_response_iff}
use lantern_client.Web.Auth.{Messages, has_client, sign_in, get_salt, login_prepare, send_login}
use lantern_client.Web.SignIn.{Agreed, login-Agreed}

-- The bytes that are printable runes, without those above U+00A0.
abbrev is_print : ℕ → Bool
is_print b = if ltb b 0x20 then false else ltb b 0x7f

-- "é" in UTF-8, between two letters.
abbrev accented : Response
accented = record { status = 200; body = 0x61 ∷ 0xc3 ∷ 0xa9 ∷ 0x62 ∷ [] }

accents_are_lost : read_response is_print [] accented ≡ some (0x61 ∷ 0x62 ∷ [])
unfolding read_response is_protobuf sanitize_response_body lookup
accents_are_lost = refl

read_response_iff_example : (read_response is_print [] accented ≡ some accented.body) ↔ (
    (200 ≤ accented.status)
    × (accented.status < 300)
    × ((is_protobuf (lookup content_type []) ≡ true) ⊎ AllPrinted is_print accented.body))
read_response_iff_example = read_response_iff is_print [] accented

-- A server that answers each path with the bytes of its own.
abbrev server : String → List ℕ → Option (List ℕ)
server path message = if path == "/users/prepare" then some (1 ∷ []) else some (2 ∷ [])

abbrev salts : String → Params → Option (List ℕ)
salts path sent = some (7 ∷ [])

abbrev mild_srp : Srp
mild_srp = record {
  Key = String;
  client = λ key salt. key;
  public = λ key. [];
  verifier = λ key. some [];
  set_others_public = λ key b. true;
  has_key = λ key. true;
  good_server_proof = λ key salt address proof. key == "pwa@b";
  client_proof = λ key. some (3 ∷ []);
}

abbrev bea : LoginResponse
bea = record {
  success = true;
  legacy_id = pos 5;
  legacy_token = "t";
  devices = [];
  legacy_user_data = record {
    user_id = pos 5;
    code = "";
    user_level = "";
    expiration = pos 0;
    email = "";
    user_status = "";
    devices = [];
  };
  salt = [];
}

abbrev messages : Messages
messages = record {
  salt_of = λ bs. some bs;
  signup_request = λ email salt verifier. salt;
  prepare_request = λ email a. a;
  prepared_of = λ bs. some (record { b = bs; proof = bs });
  login_request = λ email proof device. proof;
  login_of = λ bs. some bea;
  is_valid = λ bs. true;
}

abbrev no_date : ℤ → String
no_date z = ""

abbrev device_only : Db
device_only = record { m = ("deviceid", text "d1") ∷ []; faults = [] }

bea_signs_in :
    (login no_date (sign_in server messages mild_srp salts) "A@b" "pw" device_only).0 ≡ true
unfolding login answered sign_in get_salt login_prepare send_login prove proof_for new_client
    has_client logged_in cache_user_detail cache_profile cache_email cache_referral decide_pro
    cached_status mutate set_email set_referral_code set_user_level set_expiration set_pro_user
    set_devices set_user_id_and_token save_user_salt set_logged_in convert_to_user_details to_lower
bea_signs_in = refl

login-Agreed_example :
    Agreed server messages mild_srp salts "pw" (to_lower "A@b") (get_device_id device_only)
login-Agreed_example =
    login-Agreed no_date server messages mild_srp salts "A@b" "pw" device_only bea_signs_in

-- ===== src/Tests/Headers.antt =====
-- Runs of the headers and cross-origin requests of internalsdk/common/headers.go.
use lantern_client.Prelude.{◌≡◌, refl, String, true, none, [], ◌∷◌, pos}
use lantern_client.Headers.Header.{Header, get}
use lantern_client.Headers.Common.{
  UserConfig, Build, device_id_header, pro_token_header, user_id_header, user_id_text,
  add_common_headers_with_options,
}
use lantern_client.Headers.Auth.{KeepsApart, chosen, auth-add_common_headers_with_options}
use lantern_client.Headers.Cors.{Request}

abbrev build : Build
build = record {
  canon = λ k. k;
  application_version = "7.9";
  library_version = "2";
  platform = "linux";
  format_int = λ z. "5";
  join = λ es. "";
}

abbrev config : UserConfig
config = record {
  app_name = "lantern";
  device_id = "d1";
  user_id = pos 5;
  token = "";
  language = "en";
  time_zone = none;
  internal_headers = ("X-Extra", "1") ∷ [];
  enabled_experiments = [];
}

keeps_apart : KeepsApart build.canon
keeps_apart k j ck cj ne = ne

abbrev request_header : Header
request_header = (pro_token_header, "old" ∷ []) ∷ []

abbrev sent : Header
sent = add_common_headers_with_options build config "noise" true request_header

auth-add_common_headers_with_options_example :
    (get build.canon device_id_header sent
      ≡ chosen true config.device_id (get build.canon device_id_header request_header))
    × (get build.canon pro_token_header sent
        ≡ chosen true config.token (get build.canon pro_token_header request_header))
    × (get build.canon user_id_header sent
        ≡ chosen true
            (user_id_text build config.user_id)
            (get build.canon user_id_header request_header))
auth-add_common_headers_with_options_example =
    auth-add_common_headers_with_options build keeps_apart config "noise" true request_header
      (refl, tt) (refl, tt) (refl, tt) refl

abbrev local_request : Request
local_request = record {
  method = "OPTIONS";
  header = ("origin", "http://localhost:3000" ∷ []) ∷ [];
}

abbrev same_name : String → String
same_name k = k

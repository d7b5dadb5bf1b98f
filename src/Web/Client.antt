-- ===== src/Web/Client.antt =====
-- `restClient` of internalsdk/webclient/webclient.go. A body is its bytes. `is_print` stands for `unicode.IsPrint`
-- of the rune with the byte's number, `execute` for the HTTP client with its hooks, and the decoders
-- for encoding/json and protobuf; `none` is an error of theirs.
use lantern_client.Prelude.{
  ℕ, String, Bool, false, ◌||◌, Option, none, some, List, [], ◌∷◌, Dict, lookup, insert, ltb, leb,
  ◌==◌, if◌then◌else◌, ◌>>=◌,
}

abbrev pub content_type : String
content_type = "Content-Type"

abbrev pub content_type_json : String
content_type_json = "application/json"

abbrev pub content_type_form : String
content_type_form = "application/x-www-form-urlencoded"

abbrev pub content_type_protobuf : String
content_type_protobuf = "application/x-protobuf"

-- `params`: nil, a map with its values as texts, or another value, as its bytes.
pub data Params : Type 0 where
  nil : Params
  entries : Dict String → Params
  value : List ℕ → Params

-- What a request carries.
pub data Payload : Type 0 where
  nothing : Payload
  query form : Dict String → Payload
  bytes : List ℕ → Payload

pub record Request : Type 0 where
  pub method : String
  pub path : String
  pub headers : Dict String
  pub payload : Payload

pub record Response : Type 0 where
  pub status : ℕ
  pub body : List ℕ

-- A body that is not empty.
body_payload : List ℕ → Payload
body_payload [] = nothing
body_payload (b ∷ body) = bytes (b ∷ body)

-- `processParams`.
unfoldable pub process_params : String → Params → List ℕ → Payload
unfolding body_payload
process_params method nil body = body_payload body
process_params method (entries p) body = if method == "GET" then query p else form p
process_params method (value v) body = bytes v

unfoldable pub is_protobuf : Option String → Bool
is_protobuf none = false
is_protobuf (some t) = t == content_type_protobuf

-- The header of the content is there at least with its default.
unfoldable pub with_default : Dict String → Dict String
with_default headers = elim (lookup content_type headers) [
  | none ↦ insert content_type content_type_json headers
  | some t ↦ headers
]

module _ (is_print : ℕ → Bool) where
  -- `sanitizeResponseBody`: each byte is taken for a rune.
  unfoldable pub sanitize_response_body : List ℕ → List ℕ
  sanitize_response_body [] = []
  sanitize_response_body (b ∷ data_) =
      let cleaned = sanitize_response_body data_ in if is_print b then b ∷ cleaned else cleaned

  -- The body of an answer; a status that is not 200 to 299 is an error.
  unfoldable pub read_response : Dict String → Response → Option (List ℕ)
  unfolding is_protobuf
  read_response headers r =
      if ltb r.status 200 || leb 300 r.status
      then none
      else some (
          if is_protobuf (lookup content_type headers)
          then r.body
          else sanitize_response_body r.body)

  module _ (execute : Request → Option Response) where
    -- `send`.
    unfoldable pub send : String → String → Params → List ℕ → Dict String → Option (List ℕ)
    send method path params body headers =
        let all = with_default headers in
        execute (record {
          method = method;
          path = path;
          headers = all;
          payload = process_params method params body;
        })
        >>= read_response all

    module _ {A : Type 0} (decode : List ℕ → Option A) where
      -- `GetJSON`.
      unfoldable pub get_json : String → Params → Option A
      get_json path params = send "GET" path params [] [] >>= decode

      -- `GetPROTOC`.
      unfoldable pub get_protoc : String → Params → Option A
      get_protoc path params =
          send "GET" path params [] ((content_type, content_type_protobuf) ∷ []) >>= decode

      -- `PostFormReadingJSON`.
      unfoldable pub post_form_reading_json : String → Params → Option A
      post_form_reading_json path params =
          send "POST" path params [] ((content_type, content_type_form) ∷ []) >>= decode

      -- `PostJSONReadingJSON`, for the bytes of the body.
      unfoldable pub post_json_reading_json : String → Params → Option (List ℕ) → Option A
      post_json_reading_json path params body =
          body
          >>= (λ bs. send "POST" path params bs ((content_type, content_type_json) ∷ []))
          >>= decode

      -- `PostPROTOC`, for the bytes of the message.
      unfoldable pub post_protoc : String → Params → Option (List ℕ) → Option A
      post_protoc path params body =
          body
          >>= (λ bs. send "POST" path params bs ((content_type, content_type_protobuf) ∷ []))
          >>= decode

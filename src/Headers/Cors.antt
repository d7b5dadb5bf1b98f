-- ===== src/Headers/Cors.antt =====
-- Cross-origin requests (`ProcessCORS` and `CORSMiddleware` of internalsdk/common/headers.go).
use text.Mathlib.Text.{starts_with}
use lantern_client.Prelude.{String, Bool, true, false, ◌&&◌, ◌||◌, if◌then◌else◌, ◌==◌}
use lantern_client.Headers.Header.{Header, set, add, get}

unfoldable pub is_origin_allowed : String → Bool
is_origin_allowed origin =
    starts_with origin "http://localhost:"
    || starts_with origin "http://127.0.0.1:"
    || starts_with origin "http://[::1]:"

pub record Request : Type 0 where
  pub method : String
  pub header : Header

-- A response: its headers, whether the status 200 was written, and whether the next handler was called.
pub record Response : Type 0 where
  pub header : Header
  pub ok_written : Bool
  pub served : Bool

module _ (canon : String → String) where
  unfoldable pub allow : String → Request → Header → Header
  allow origin r h₀ =
      let h₁ = set canon "Access-Control-Allow-Origin" origin h₀ in
      let h₂ = set canon "Vary" "Origin" h₁ in
      let h₃ = set canon "Access-Control-Allow-Credentials" "true" h₂ in
      let h₄ = add canon "Access-Control-Allow-Methods" "GET" h₃ in
      let h₅ = add canon "Access-Control-Allow-Methods" "POST" h₄ in
      let h₆ = add canon "Access-Control-Allow-Methods" "OPTIONS" h₅ in
      set canon "Access-Control-Allow-Headers" (get canon "Access-Control-Request-Headers" r.header)
        h₆

  -- The response headers, and whether the request is a valid cross-origin request.
  unfoldable pub process_cors : Request → Header → Header × Bool
  process_cors r h =
      let origin = get canon "origin" r.header in
      if origin == ""
      then (h, false)
      else if is_origin_allowed origin
      then (allow origin r h, true)
      else (h, false)

  answer : Request → Header × Bool → Response
  answer r (h, ok) =
      if ok && r.method == "OPTIONS"
      then record { header = h; ok_written = true; served = false }
      else record { header = h; ok_written = false; served = true }

  -- `CORSMiddleware`, up to the call of the next handler.
  unfoldable pub cors_middleware : Request → Header → Response
  unfolding answer
  cors_middleware r h = answer r (process_cors r h)

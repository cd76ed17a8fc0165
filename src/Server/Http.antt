-- ===== src/Server/Http.antt =====
-- error.rs, and the requests and responses of `axum` as far as the server looks at them.
use transity_terminal_resv_c.Common.{Bool, ℕ, Text, codes, text_eq, List, [], ◌∷◌, Option}
use transity_terminal_resv_c.Engine.Types.{EngineError, SqlxError, hold_expired_or_missing}
use transity_terminal_resv_c.Engine.Database.Sql.{delete_where}

-- `header` is `headers.get(name).and_then(|v| v.to_str().ok())`, `service` the `ServiceIdentity`
-- among the extensions.
pub record Request : Type 0 where
  pub method : Text
  pub path : Text
  pub header : Text → Option Text
  pub body : List ℕ
  pub service : Option Text

pub record Response : Type 0 where
  pub status : ℕ
  pub headers : List (Text × Text)
  pub body : List ℕ

-- The functions of the crates that the server calls: `to_bytes` of axum, SHA-256, HMAC-SHA256 on a
-- key that it accepts, `hex`, `from_u16` and `is_success` of `StatusCode`, and the texts of serde_json
-- and thiserror.
pub record Libs : Type 0 where
  pub to_bytes : ℕ → List ℕ → Option (List ℕ)
  pub sha256 : List ℕ → List ℕ
  pub hmac_sha256 : List ℕ → Option (List ℕ → List ℕ)
  pub hex_encode : List ℕ → Text
  pub hex_decode : Text → Option (List ℕ)
  pub status_from_u16 : ℕ → Option ℕ
  pub is_success : ℕ → Bool
  pub error_json : Text → Text → List ℕ
  pub error_text : EngineError → Text
  pub sqlx_text : SqlxError → Text

-- `HeaderMap::insert`: what the name had is replaced.
unfoldable pub insert_header : Text → Text → List (Text × Text) → List (Text × Text)
insert_header name value hs = (name, value) ∷ delete_where (λ h. text_eq h.0 name) hs

-- 1 MiB
abbrev pub max_body_bytes : ℕ
max_body_bytes = 1_048_576

pub record ApiError : Type 0 where
  pub status : ℕ
  pub code : Text
  pub message : Text

abbrev pub new : ℕ → Text → Text → ApiError
new status code message = record { status = status; code = code; message = message }

unfoldable pub bad_request : Text → ApiError
bad_request message = new 400 (codes "BAD_REQUEST") message

unfoldable pub unauthorized : Text → ApiError
unauthorized message = new 401 (codes "UNAUTHORIZED") message

unfoldable pub conflict : Text → ApiError
conflict message = new 409 (codes "CONFLICT") message

unfoldable pub internal_error : Text → ApiError
internal_error message = new 500 (codes "INTERNAL") message

unfoldable pub body_too_large : ApiError
body_too_large = new 413 (codes "BODY_TOO_LARGE") (codes "body exceeds 1MB")

module _ (libs : Libs) where
  unfoldable pub into_response : ApiError → Response
  into_response e = record {
    status = e.status;
    headers = (codes "content-type", codes "application/json") ∷ [];
    body = libs.error_json e.code e.message;
  }

  -- `impl From<EngineError> for ApiError`.
  unfoldable pub from_engine_error : EngineError → ApiError
  unfolding internal_error
  from_engine_error hold_expired_or_missing =
      new 409 (codes "HOLD_EXPIRED_OR_MISSING") (libs.error_text hold_expired_or_missing)
  from_engine_error other = internal_error (libs.error_text other)

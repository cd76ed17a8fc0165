-- ===== src/Server/Hmac.antt =====
-- hmac.rs: the middleware `verify`.
pub mod Laws
pub mod Sign
pub mod Split
pub mod Signed
pub mod Unsigned
use transity_terminal_resv_c.Common.{
  ℕ, ℤ, ltb_ℤ, Bool, true, false, not, ◌||◌, Text, codes, text_eq, List, [], ◌∷◌, ◌++◌, any,
  is_empty, Option, none, some, Result, ok, err, Action, if◌then◌else◌,
}
use transity_terminal_resv_c.Common.Std.{
  as_bytes, sub_i64, abs_i64, parse_i64, show_i64, to_uppercase,
}
use transity_terminal_resv_c.Common.Fallible.{ok_or, ◌>>=◌, ◌>>◌, ensure}
use transity_terminal_resv_c.Engine.Database.{World}
use transity_terminal_resv_c.Server.Http.{
  Request, Response, Libs, max_body_bytes, ApiError, unauthorized, internal_error, body_too_large,
  into_response,
}
use transity_terminal_resv_c.Server.State.{AppState}

-- (now - timestamp).abs() > skew
unfoldable pub skew_exceeded : ℤ → ℤ → ℤ → Bool
skew_exceeded now timestamp skew = ltb_ℤ skew (abs_i64 (sub_i64 now timestamp))

unfoldable pub signing_string : ℤ → Text → Text → Text → Text
signing_string timestamp method path body_sha =
    show_i64 timestamp ++ 46 ∷ to_uppercase method ++ 46 ∷ path ++ 46 ∷ body_sha

-- The allowlist; an empty one lets every service pass.
unfoldable pub is_allowed : List Text → Text → Bool
is_allowed allowed svc_id = is_empty allowed || any (λ a. text_eq a svc_id) allowed

module _ (libs : Libs) (state : AppState) (now : ℤ) where
  -- Everything up to `next`: the request that is handed on.
  unfoldable pub authenticate : Request → Result ApiError Request
  unfolding unauthorized internal_error body_too_large
  authenticate req = do
    svc_id ← ok_or (req.header (codes "x-service-id")) (unauthorized (codes "missing X-Service-Id"))
    signature_hex ←
        ok_or (req.header (codes "x-signature")) (unauthorized (codes "missing X-Signature"))
    timestamp_str ←
        ok_or (req.header (codes "x-timestamp")) (unauthorized (codes "missing X-Timestamp"))
    timestamp ← ok_or (parse_i64 timestamp_str) (unauthorized (codes "invalid X-Timestamp"))
    ensure (not (skew_exceeded now timestamp state.hmac_skew_secs))
        (unauthorized (codes "timestamp skew exceeded"))
    bytes ← ok_or (libs.to_bytes max_body_bytes req.body) body_too_large
    let body_sha = libs.hex_encode (libs.sha256 bytes)
    mac ←
        ok_or (libs.hmac_sha256 (as_bytes state.hmac_secret))
          (internal_error (codes "invalid HMAC key"))
    let expected = mac (as_bytes (signing_string timestamp req.method req.path body_sha))
    got ← ok_or (libs.hex_decode signature_hex) (unauthorized (codes "invalid signature encoding"))
    ensure (text_eq got expected) (unauthorized (codes "signature mismatch"))
    ensure (is_allowed state.allowed_service_ids svc_id)
        (unauthorized (codes "X-Service-Id not in allowlist"))
    ok (record req { body = bytes; service = some svc_id })

  module _ {S : Type 0} (next : Request → World S → Response × World S) where
    unfoldable pub hand_on : Result ApiError Request → Action Response (World S) Response
    hand_on (ok req) w = let (resp, w') = next req w in (ok resp, w')
    hand_on (err e) w = (err (into_response libs e), w)

    -- The liveness probe passes without a signature.
    unfoldable pub verify : Request → Action Response (World S) Response
    unfolding hand_on authenticate
    verify req w =
        if text_eq req.path (codes "/api/v1/healthz")
        then (let (resp, w') = next req w in (ok resp, w'))
        else hand_on (authenticate req) w

-- ===== src/Server/Examples/Access.antt =====
-- Signatures, and requests without one.
use transity_terminal_resv_c.Common.{
  true, pos, ◌≡◌, ◌↔◌, ◌⊎◌, ◌^◌, refl, ◌-ℤ◌, false, Text, codes, text_eq, List, none, some, ok, err,
  arith,
}
use transity_terminal_resv_c.Common.Std.{
  parse_i64, to_uppercase, trim, is_whitespace, as_bytes, char_bytes, show_i64, sub_i64, abs_i64,
  wrap_i64,
}
use transity_terminal_resv_c.Engine.Events.{ReservationEvent, recording_publisher}
use transity_terminal_resv_c.Engine.Database.{Env, World}
use transity_terminal_resv_c.Engine.Hold.{atomic_hold, run_hold_txn}
use transity_terminal_resv_c.Server.Layer.{is_write, get_idempotency_key}
use transity_terminal_resv_c.Server.Routes.{post_hold, hold_status}
use transity_terminal_resv_c.Server.Http.{Libs, Request, Response, ApiError, into_response}
use transity_terminal_resv_c.Server.Hmac.{
  skew_exceeded, signing_string, is_allowed, authenticate, verify,
}
use transity_terminal_resv_c.Server.Hmac.Laws.{IsNear, skew_exceeded_lem, Authentic, verify_cases}
use transity_terminal_resv_c.Server.Hmac.Sign.{
  sign, signed_header, signed_request, authenticate-sign,
}
use transity_terminal_resv_c.Server.App.{router}
use transity_terminal_resv_c.Server.App.Answered.{SameRows, router-SameRows}
use transity_terminal_resv_c.Server.App.Guard.{router_guarded}
use transity_terminal_resv_c.Server.Examples.{
  plain_libs, plain_codec, app_state, env_of, busy_world, response_of, request_with, text_leb,
}

skew_exceeded_lem_example :
    (skew_exceeded (pos 1000) (pos 990) (pos 30) ≡ false)
    ↔ (IsNear (pos 1000) (pos 990) (pos 30) ⊎ (pos 990 ≡ pos 1000 -ℤ pos (2 ^ 63)))
skew_exceeded_lem_example =
    skew_exceeded_lem 1000 30 (pos 990) (omega arith) (omega arith) (omega arith, omega arith)

-- What the load test's client sends at second 1000.
abbrev signed_headers : Text × Text × Text
signed_headers = (
  codes "loadtest",
  show_i64 (pos 1000),
  as_bytes
      (signing_string (pos 1000) (codes "POST") (codes "/api/v1/holds") (as_bytes (codes "{}"))),
)

authenticate-sign_example :
    let req =
      signed_request
        (codes "POST")
        (codes "/api/v1/holds")
        (codes "{}")
        signed_headers
        (λ n. none) in
    authenticate plain_libs app_state (pos 1010) req
    ≡ ok (record req { service = some (codes "loadtest") })
unfolding sign skew_exceeded sub_i64 abs_i64 wrap_i64 ◌-ℤ◌ as_bytes char_bytes is_allowed
    signing_string
authenticate-sign_example =
    authenticate-sign plain_libs app_state (pos 1010) 1000 (codes "POST") (codes "/api/v1/holds")
      (codes "{}") signed_headers (λ n. none) refl (omega arith) refl refl refl (λ x. refl)

abbrev stranger : Request
stranger = request_with (codes "/api/v1/holds") (codes "x-service-id") (codes "terminal")

abbrev nothing : Request → World (List ReservationEvent) → Response × World (List ReservationEvent)
nothing r w = (response_of 200, w)

verify_cases_example :
    ((req' : Request) × Authentic plain_libs app_state (pos 1010) stranger req'
      × (verify plain_libs app_state (pos 1010) nothing stranger busy_world
          ≡ (ok (nothing req' busy_world).0, (nothing req' busy_world).1)))
    ⊎ (((req' : Request) → ¬ Authentic plain_libs app_state (pos 1010) stranger req')
        × ((e : ApiError) × (verify plain_libs app_state (pos 1010) nothing stranger busy_world
              ≡ (err (into_response plain_libs e), busy_world))))
unfolding text_eq
verify_cases_example = verify_cases plain_libs app_state (pos 1010) stranger nothing busy_world refl

stranger_unsigned : (req' : Request) → ¬ Authentic plain_libs app_state (pos 1010) stranger req'
unfolding text_eq
stranger_unsigned req' a = cc a.carried

router_guarded_example :
    (router plain_libs plain_codec app_state
      (pos 1010)
      (env_of (pos 0))
      (env_of (pos 1))
      (env_of (pos 2))
      recording_publisher
      text_leb
      stranger
      busy_world).1
    ≡ busy_world
router_guarded_example =
    router_guarded plain_libs plain_codec app_state (pos 1010) (env_of (pos 0)) (env_of (pos 1))
      (env_of (pos 2)) recording_publisher text_leb stranger busy_world refl stranger_unsigned

-- Bodies of any length fit.
abbrev wide_libs : Libs
wide_libs = record plain_libs { to_bytes = λ n b. some b }

abbrev failing_env : Env
failing_env = record (env_of (pos 0)) { fails = λ c. true }

-- The load test's request, to a server whose database fails.
abbrev answered : Response × World (List ReservationEvent)
answered =
    router wide_libs plain_codec app_state (pos 1010) (env_of (pos 0)) failing_env (env_of (pos 0))
      recording_publisher text_leb
      (signed_request (codes "POST") (codes "/api/v1/holds") (codes "{}") signed_headers
        (λ n. none))
      busy_world

answered-status : answered.0.status ≡ 500
unfolding router text_eq signed_header parse_i64 show_i64 skew_exceeded abs_i64 sub_i64 ◌-ℤ◌
    signing_string char_bytes to_uppercase is_allowed is_write get_idempotency_key post_hold trim
    is_whitespace atomic_hold run_hold_txn hold_status
answered-status = refl

router-SameRows_example : SameRows busy_world answered.1
router-SameRows_example =
    router-SameRows wide_libs plain_codec app_state (pos 1010) (env_of (pos 0)) failing_env
      (env_of (pos 0)) recording_publisher text_leb
      (signed_request (codes "POST") (codes "/api/v1/holds") (codes "{}") signed_headers
        (λ n. none))
      busy_world (λ r e. cc) (λ e. omega (answered-status, arith))
      (λ e. omega (answered-status, arith))

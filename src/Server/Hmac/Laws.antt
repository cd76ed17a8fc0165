-- ===== src/Server/Hmac/Laws.antt =====
-- What a request has to carry to be let through.
use transity_terminal_resv_c.Common.{
  ℕ, ℤ, pos, negsuc, ◌<◌, ◌^◌, ◌-◌, ◌≡◌, ◌↔◌, ◌⊎◌, refl, ap, ◌∙◌, ◌-ℤ◌, ◌≤ℤ◌, Bool, true, false,
  not, Text, codes, text_eq, List, some, Result, ok, err, arith, text_eq_iff, text_eq_refl, inl,
  inr, ◌+ℤ◌,
}
use transity_terminal_resv_c.Common.Std.{as_bytes, parse_i64, sub_i64, abs_i64, wrap_i64}
use transity_terminal_resv_c.Common.Fallible.{ok_or-ok, ensure-ok, ok_inj}
use transity_terminal_resv_c.Engine.Database.{World}
use transity_terminal_resv_c.Server.Http.{
  Request, Response, Libs, max_body_bytes, ApiError, into_response,
}
use transity_terminal_resv_c.Server.State.{AppState}
use transity_terminal_resv_c.Server.Hmac.{
  skew_exceeded, signing_string, is_allowed, authenticate, hand_on, verify,
}

-- An `i64`.
abbrev pub IsI64 : ℤ → Type 0
IsI64 x = (x ≤ℤ pos (2 ^ 63 - 1)) × (negsuc (2 ^ 63 - 1) ≤ℤ x)

-- The distance of two instants, as the test is meant.
abbrev pub IsNear : ℤ → ℤ → ℤ → Type 0
IsNear now ts skew = (now ≤ℤ (ts +ℤ skew)) × (ts ≤ℤ (now +ℤ skew))

-- For a clock and a tolerance below 2^62, the test in wrapping 64-bit arithmetic lets a timestamp
-- pass exactly if it is within the tolerance of the clock, or is the clock minus 2^63.
pub skew_exceeded_lem :
    (now skew : ℕ) (ts : ℤ)
    → now < 2 ^ 62
    → skew < 2 ^ 62
    → IsI64 ts
    → (skew_exceeded (pos now) ts (pos skew) ≡ false)
      ↔ (IsNear (pos now) ts (pos skew) ⊎ (ts ≡ pos now -ℤ pos (2 ^ 63)))
unfolding skew_exceeded abs_i64 sub_i64 wrap_i64 ◌+ℤ◌ ◌-ℤ◌
skew_exceeded_lem now skew (pos t) hn hs ht = ground arith
skew_exceeded_lem now skew (negsuc t) hn hs ht = ground arith

false_of_not : (b : Bool) → not b ≡ true → b ≡ false
false_of_not b e = ground arith

module _ (libs : Libs) (state : AppState) (now : ℤ) (req : Request) where
  -- What a request that is handed on carries, and what it is handed on as.
  pub record Authentic (req' : Request) : Type 0 where
    pub svc_id : Text
    pub signature_hex : Text
    pub timestamp_str : Text
    pub timestamp : ℤ
    pub bytes : List ℕ
    pub mac : List ℕ → List ℕ
    pub named : req.header (codes "x-service-id") ≡ some svc_id
    pub carried : req.header (codes "x-signature") ≡ some signature_hex
    pub stamped : req.header (codes "x-timestamp") ≡ some timestamp_str
    pub parsed : parse_i64 timestamp_str ≡ some timestamp
    pub recent : skew_exceeded now timestamp state.hmac_skew_secs ≡ false
    pub buffered : libs.to_bytes max_body_bytes req.body ≡ some bytes
    pub keyed : libs.hmac_sha256 (as_bytes state.hmac_secret) ≡ some mac
    pub signed :
        libs.hex_decode signature_hex
        ≡ some (
            mac (
              as_bytes (
                signing_string timestamp req.method req.path
                  (libs.hex_encode (libs.sha256 bytes)))))
    pub allowed : is_allowed state.allowed_service_ids svc_id ≡ true
    pub handed_on : req' ≡ record req { body = bytes; service = some svc_id }

  pub Authentic-authenticate :
      (req' : Request) → Authentic req' → authenticate libs state now req ≡ ok req'
  unfolding authenticate
  Authentic-authenticate req' a = ground (
    arith,
    a.named,
    a.carried,
    a.stamped,
    a.parsed,
    a.recent,
    a.buffered,
    a.keyed,
    a.signed,
    a.allowed,
    a.handed_on,
    text_eq_refl (
        a.mac (
          as_bytes (
            signing_string a.timestamp req.method req.path
              (libs.hex_encode (libs.sha256 a.bytes))))),
  )

  pub authenticate-Authentic :
      (req' : Request) → authenticate libs state now req ≡ ok req' → Authentic req'
  unfolding authenticate
  authenticate-Authentic req' h0 =
      let (svc_id, e1, h1) = ok_or-ok (req.header (codes "x-service-id")) _ _ req' h0 in
      let (signature_hex, e2, h2) = ok_or-ok (req.header (codes "x-signature")) _ _ req' h1 in
      let (timestamp_str, e3, h3) = ok_or-ok (req.header (codes "x-timestamp")) _ _ req' h2 in
      let (timestamp, e4, h4) = ok_or-ok (parse_i64 timestamp_str) _ _ req' h3 in
      let (e5, h5) = ensure-ok _ _ _ req' h4 in
      let (bytes, e6, h6) = ok_or-ok (libs.to_bytes max_body_bytes req.body) _ _ req' h5 in
      let (mac, e7, h7) = ok_or-ok (libs.hmac_sha256 (as_bytes state.hmac_secret)) _ _ req' h6 in
      let (got, e8, h8) = ok_or-ok (libs.hex_decode signature_hex) _ _ req' h7 in
      let (e9, h9) = ensure-ok _ _ _ req' h8 in
      let (e10, h10) = ensure-ok _ _ _ req' h9 in
      record {
        svc_id = svc_id;
        signature_hex = signature_hex;
        timestamp_str = timestamp_str;
        timestamp = timestamp;
        bytes = bytes;
        mac = mac;
        named = e1;
        carried = e2;
        stamped = e3;
        parsed = e4;
        recent = false_of_not _ e5;
        buffered = e6;
        keyed = e7;
        signed = e8 ∙ ap some ((text_eq_iff got _).0 e9);
        allowed = e10;
        handed_on = ok_inj h10;
      }

  module _ {S : Type 0} (next : Request → World S → Response × World S) (w : World S) where
    -- Other than on the liveness path, a request reaches the handler exactly if it is authentic: a
    -- timestamp that passes the skew test, an HMAC under the shared secret over the timestamp, the
    -- method, the path and the digest of the body, and an allowed service. The handler then gets the
    -- signed body and the service's identity; every other request is answered with an error, and
    -- changes nothing.
    pub verify_cases :
        text_eq req.path (codes "/api/v1/healthz") ≡ false
        → ((req' : Request) × Authentic req'
            × (verify libs state now next req w ≡ (ok (next req' w).0, (next req' w).1)))
          ⊎ (((req' : Request) → ¬ Authentic req')
              × ((e : ApiError) × (verify libs state now next req w
                    ≡ (err (into_response libs e), w))))
    unfolding verify hand_on
    verify_cases guarded = go (authenticate libs state now req) refl
      where
        go :
            (r : Result ApiError Request)
            → authenticate libs state now req ≡ r
            → ((req' : Request) × Authentic req'
                × (verify libs state now next req w ≡ (ok (next req' w).0, (next req' w).1)))
              ⊎ (((req' : Request) → ¬ Authentic req')
                  × ((e : ApiError) × (verify libs state now next req w
                        ≡ (err (into_response libs e), w))))
        go (ok req') e = inl (req', authenticate-Authentic req' e, rw (guarded, e) refl)
        go (err x) e =
            inr ((λ req' a. cc (Authentic-authenticate req' a, e)), (x, rw (guarded, e) refl))

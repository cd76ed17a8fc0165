-- ===== src/Server/Hmac/Sign.antt =====
-- loadtest/src/main.rs: `sign`, the client's side of the signature.
use transity_terminal_resv_c.Common.{
  ℕ, zero, suc, ℤ, pos, ◌≤◌, ◌<◌, ◌^◌, ◌*◌, ◌+◌, ◌-◌, ◌/◌, ◌%◌, ◌≡◌, refl, ap, sym, ◌∙◌, true,
  false, Text, codes, text_eq, List, [], ◌∷◌, ◌++◌, Option, none, some, ok, arith, if◌then◌else◌,
  inl, inr, ◌⊎◌,
}
use transity_terminal_resv_c.Common.Std.{
  as_bytes, parse_digits, some_digits, in_range, parse_unsigned, parse_i64, show_digits, show_i64,
  to_uppercase,
}
use transity_terminal_resv_c.Server.Http.{Request, Libs, max_body_bytes}
use transity_terminal_resv_c.Server.State.{AppState}
use transity_terminal_resv_c.Server.Hmac.{skew_exceeded, signing_string, is_allowed, authenticate}
use transity_terminal_resv_c.Server.Hmac.Laws.{Authentic-authenticate}

parse_digits-append :
    (n : ℕ) (s : Text) (m d : ℕ)
    → parse_digits n s ≡ some m
    → d < 10
    → parse_digits n (s ++ (48 + d) ∷ []) ≡ some (m * 10 + d)
unfolding parse_digits
parse_digits-append n [] m d e h = ground arith
parse_digits-append n (c ∷ s) m d e h =
    ground (arith, parse_digits-append (n * 10 + (c - 48)) s m d)

pub show_small : (fuel n : ℕ) → n < 10 → show_digits (suc fuel) n ≡ (48 + n) ∷ []
unfolding show_digits
show_small fuel n h = ground arith

pub show_large :
    (fuel n : ℕ)
    → 10 ≤ n
    → show_digits (suc fuel) n ≡ show_digits fuel (n / 10) ++ (48 + n % 10) ∷ []
unfolding show_digits
show_large fuel n h = ground arith

parse_one : (n : ℕ) → n < 10 → parse_digits 0 ((48 + n) ∷ []) ≡ some n
unfolding parse_digits
parse_one n h = ground arith

pub less_or_more : (n m : ℕ) → (n < m) ⊎ (m ≤ n)
less_or_more n m = ground arith

pub parse_digits-show_digits :
    (fuel n : ℕ) → n < 10 ^ suc fuel → parse_digits 0 (show_digits (suc fuel) n) ≡ some n
parse_digits-show_digits zero n h = rw (show_small 0 n h) (parse_one n h)
parse_digits-show_digits (suc fuel) n h = elim (less_or_more n 10) [
  | inl small ↦ rw (show_small (suc fuel) n small) (parse_one n small)
  | inr large ↦ rw (show_large (suc fuel) n large) (
      parse_digits-append 0 (show_digits (suc fuel) (n / 10)) (n / 10) (n % 10)
        (parse_digits-show_digits fuel (n / 10) (omega arith)) (omega arith)
      ∙ ap some (omega arith))
]

-- The digits start with a digit.
pub show_digits_cons :
    (fuel n : ℕ)
    → n < 10 ^ suc fuel
    → (c : ℕ) × (s : Text) × (show_digits (suc fuel) n ≡ c ∷ s) × (48 ≤ c)
show_digits_cons zero n h = (48 + n, [], show_small 0 n h, omega arith)
show_digits_cons (suc fuel) n h = elim (less_or_more n 10) [
  | inl small ↦ (48 + n, [], show_small (suc fuel) n small, omega arith)
  | inr large ↦
      let (c, s, e, l) = show_digits_cons fuel (n / 10) (omega arith) in
      (
        c,
        s ++ (48 + n % 10) ∷ [],
        show_large (suc fuel) n large ∙ ap (λ x. x ++ (48 + n % 10) ∷ []) e,
        l,
      )
]

-- `to_string` and `parse` of a timestamp that is not negative.
parse_i64-show_i64 : (n : ℕ) → n < 2 ^ 63 → parse_i64 (show_i64 (pos n)) ≡ some (pos n)
unfolding show_i64
parse_i64-show_i64 n h =
    let (c, s, e, l) = show_digits_cons 19 n (omega arith) in
    ap parse_i64 e
    ∙ go c s l (ap (parse_digits 0) (sym e) ∙ parse_digits-show_digits 19 n (omega arith))
  where
    go :
        (c : ℕ) (s : Text)
        → 48 ≤ c
        → parse_digits 0 (c ∷ s) ≡ some n
        → parse_i64 (c ∷ s) ≡ some (pos n)
    go c s l e = unfold parse_i64 parse_unsigned some_digits in_range in ground (arith, e)

-- The client's own `format!` of what it signs.
unfoldable pub signing : Text → Text → Text → Text → Text
unfolding to_uppercase
signing ts method path body_sha = ts ++ 46 ∷ to_uppercase method ++ 46 ∷ path ++ 46 ∷ body_sha

-- The service id, the timestamp and the signature; none where `expect` panics.
abbrev signed_by :
    Libs → ℤ → Text → Text → Text → Option (List ℕ → List ℕ) → Option (Text × Text × Text)
signed_by libs now method path body none = none
signed_by libs now method path body (some mac) = some (
  codes "loadtest",
  show_i64 now,
  libs.hex_encode (
      mac (
        as_bytes
          (signing (show_i64 now) method path (libs.hex_encode (libs.sha256 (as_bytes body)))))),
)

unfoldable pub sign : Libs → ℤ → Text → Text → Text → Text → Option (Text × Text × Text)
unfolding as_bytes show_i64 signing
sign libs now method path body secret =
    signed_by libs now method path body (libs.hmac_sha256 (as_bytes secret))

-- The headers that the client sets: those that authenticate it, and others. Names are compared in
-- lower case.
unfoldable pub signed_header : Text × Text × Text → (Text → Option Text) → Text → Option Text
signed_header (svc_id, timestamp, signature) extra name =
    if text_eq name (codes "x-service-id")
    then some svc_id
    else if text_eq name (codes "x-timestamp")
    then some timestamp
    else if text_eq name (codes "x-signature")
    then some signature
    else extra name

abbrev pub signed_request : Text → Text → Text → Text × Text × Text → (Text → Option Text) → Request
signed_request method path body headers extra = record {
  method = method;
  path = path;
  header = signed_header headers extra;
  body = as_bytes body;
  service = none;
}

-- Both sides sign the same text.
signing_lem :
    (now : ℤ) (method path body_sha : Text)
    → signing (show_i64 now) method path body_sha ≡ signing_string now method path body_sha
unfolding signing signing_string
signing_lem now method path body_sha = refl

sign_mac :
    (libs : Libs) (now : ℤ) (method path body secret : Text) (headers : Text × Text × Text)
    → sign libs now method path body secret ≡ some headers
    → (mac : List ℕ → List ℕ) × (libs.hmac_sha256 (as_bytes secret) ≡ some mac)
      × (headers ≡ (
        codes "loadtest",
        show_i64 now,
        libs.hex_encode (
            mac (
              as_bytes (
                signing
                  (show_i64 now)
                  method
                  path
                  (libs.hex_encode (libs.sha256 (as_bytes body)))))),
      ))
unfolding sign
sign_mac libs now method path body secret headers e = go (libs.hmac_sha256 (as_bytes secret)) refl e
  where
    go :
        (o : Option (List ℕ → List ℕ))
        → libs.hmac_sha256 (as_bytes secret) ≡ o
        → signed_by libs now method path body o ≡ some headers
        → (mac : List ℕ → List ℕ) × (libs.hmac_sha256 (as_bytes secret) ≡ some mac)
          × (headers ≡ (
            codes "loadtest",
            show_i64 now,
            libs.hex_encode (
                mac (
                  as_bytes (
                    signing
                      (show_i64 now)
                      method
                      path
                      (libs.hex_encode (libs.sha256 (as_bytes body)))))),
          ))
    go none k e = cc
    go (some mac) k e = (mac, k, cc)

module _ (libs : Libs) (state : AppState) (server_now : ℤ) (client_now : ℕ)
    (method path body : Text) (headers : Text × Text × Text) (extra : Text → Option Text) where
  -- What the load test's client signs, the server lets through with its body and service: if they
  -- share the secret, the client's clock passes the skew test, the body fits in the limit, the
  -- client's service is allowed, and decoding hex undoes its encoding.
  pub authenticate-sign :
      sign libs (pos client_now) method path body state.hmac_secret ≡ some headers
      → client_now < 2 ^ 63
      → skew_exceeded server_now (pos client_now) state.hmac_skew_secs ≡ false
      → libs.to_bytes max_body_bytes (as_bytes body) ≡ some (as_bytes body)
      → is_allowed state.allowed_service_ids (codes "loadtest") ≡ true
      → ((x : List ℕ) → libs.hex_decode (libs.hex_encode x) ≡ some x)
      → let req = signed_request method path body headers extra in
        authenticate libs state server_now req
        ≡ ok (record req { service = some (codes "loadtest") })
  unfolding signed_header text_eq
  authenticate-sign signed in_range recent buffered allowed hex =
      let (mac, keyed, same) =
        sign_mac libs (pos client_now) method path body state.hmac_secret headers signed in
      rw same (
        Authentic-authenticate libs state server_now _ _ (record {
          svc_id = codes "loadtest";
          signature_hex = libs.hex_encode (
              mac (
                as_bytes (
                  signing (show_i64 (pos client_now)) method path
                    (libs.hex_encode (libs.sha256 (as_bytes body))))));
          timestamp_str = show_i64 (pos client_now);
          timestamp = pos client_now;
          bytes = as_bytes body;
          mac = mac;
          named = refl;
          carried = refl;
          stamped = refl;
          parsed = parse_i64-show_i64 client_now in_range;
          recent = recent;
          buffered = buffered;
          keyed = keyed;
          signed = hex _ ∙ ap (λ s. some (mac (as_bytes s))) (signing_lem _ _ _ _);
          allowed = allowed;
          handed_on = refl;
        }))

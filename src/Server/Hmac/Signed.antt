-- ===== src/Server/Hmac/Signed.antt =====
-- What a signature is good for.
use transity_terminal_resv_c.Common.{
  text_eq-cases, ℕ, ℤ, ◌≡◌, ◌≢◌, ◌⊎◌, inl, inr, ap, sym, ◌∙◌, Text, codes, List, ◌∷◌, some, ok,
}
use transity_terminal_resv_c.Common.Std.{as_bytes, parse_i64, to_uppercase}
use transity_terminal_resv_c.Server.Http.{Request, Libs}
use transity_terminal_resv_c.Server.State.{AppState}
use transity_terminal_resv_c.Server.Hmac.{signing_string, authenticate}
use transity_terminal_resv_c.Server.Hmac.Laws.{IsI64, Authentic, authenticate-Authentic}
use transity_terminal_resv_c.Server.Hmac.Split.{
  signing_string_inj, IsFree, IsPlain, parse_i64-IsI64,
}

-- The timestamp that the header carries.
abbrev pub Stamped : Request → ℤ → Type 0
Stamped req t = (s : Text) × (req.header (codes "x-timestamp") ≡ some s) × (parse_i64 s ≡ some t)

-- What the HMAC is taken over.
abbrev pub signed_bytes : Libs → ℤ → Request → List ℕ → List ℕ
signed_bytes libs t req body =
    as_bytes (signing_string t req.method req.path (libs.hex_encode (libs.sha256 body)))

module _ (libs : Libs) (state : AppState) (now now' : ℤ) (req req' out out' : Request)
    (q q' : Text) where
  -- The signed parts agree.
  pub record SameSigned (t t' : ℤ) : Type 0 where
    pub same_timestamp : t ≡ t'
    pub same_method : as_bytes (to_uppercase req.method) ≡ as_bytes (to_uppercase req'.method)
    pub same_path : as_bytes req.path ≡ as_bytes req'.path
    pub same_body : out.body ≡ out'.body

  -- Different bytes with the same HMAC under the secret.
  pub record Forged (t t' : ℤ) : Type 0 where
    pub mac : List ℕ → List ℕ
    pub keyed : libs.hmac_sha256 (as_bytes state.hmac_secret) ≡ some mac
    pub differ : signed_bytes libs t req out.body ≢ signed_bytes libs t' req' out'.body
    pub collide : mac (signed_bytes libs t req out.body) ≡ mac (signed_bytes libs t' req' out'.body)

  signed_out :
      (a : Authentic libs state now req out)
      → libs.hex_decode a.signature_hex ≡ some (a.mac (signed_bytes libs a.timestamp req out.body))
  signed_out a = rw (a.handed_on) (a.signed)

  signed_out' :
      (a : Authentic libs state now' req' out')
      → libs.hex_decode a.signature_hex
        ≡ some (a.mac (signed_bytes libs a.timestamp req' out'.body))
  signed_out' a = rw (a.handed_on) (a.signed)

  -- The same bytes were signed.
  same_signed :
      (t t' : ℤ)
      → IsI64 t
      → IsI64 t'
      → IsFree 47 (as_bytes (to_uppercase req.method))
      → IsFree 47 (as_bytes (to_uppercase req'.method))
      → req.path ≡ 47 ∷ q
      → req'.path ≡ 47 ∷ q'
      → ((x : List ℕ) → IsPlain (libs.hex_encode x))
      → ((x y : List ℕ) → libs.hex_encode x ≡ libs.hex_encode y → x ≡ y)
      → signed_bytes libs t req out.body ≡ signed_bytes libs t' req' out'.body
      → SameSigned t t' ⊎ ((out.body ≢ out'.body) × (libs.sha256 out.body ≡ libs.sha256 out'.body))
  same_signed t t' ht ht' token token' rooted rooted' plain hex e =
      let (stamps, methods, paths, digests) =
        signing_string_inj t t' req.method req'.method q q' (libs.hex_encode (libs.sha256 out.body))
          (libs.hex_encode (libs.sha256 out'.body)) ht ht' token token' (plain _) (plain _)
          (ap
              (λ p.
                as_bytes (signing_string t req.method p (libs.hex_encode (libs.sha256 out.body))))
              (sym rooted)
            ∙ e
            ∙ ap
                (λ p.
                  as_bytes
                    (signing_string t' req'.method p (libs.hex_encode (libs.sha256 out'.body))))
                rooted') in
      elim (text_eq-cases out.body out'.body) [
        | inl body ↦ inl (record {
          same_timestamp = stamps;
          same_method = methods;
          same_path = ap as_bytes rooted ∙ paths ∙ ap as_bytes (sym rooted');
          same_body = body;
        })
        | inr other ↦ inr (other, hex _ _ digests)
      ]

  -- Two requests that are let through with the same signature, at any times, have the same timestamp,
  -- the same method (in upper case), the same path and the same body; or they exhibit a collision of
  -- the HMAC or of SHA-256. The methods must have no slash and the paths must start with one, and hex
  -- must be injective and write ASCII without a full stop.
  pub authenticate-same_signature :
      authenticate libs state now req ≡ ok out
      → authenticate libs state now' req' ≡ ok out'
      → req.header (codes "x-signature") ≡ req'.header (codes "x-signature")
      → IsFree 47 (as_bytes (to_uppercase req.method))
      → IsFree 47 (as_bytes (to_uppercase req'.method))
      → req.path ≡ 47 ∷ q
      → req'.path ≡ 47 ∷ q'
      → ((x : List ℕ) → IsPlain (libs.hex_encode x))
      → ((x y : List ℕ) → libs.hex_encode x ≡ libs.hex_encode y → x ≡ y)
      → (t t' : ℤ) × Stamped req t
        × Stamped req' t'
        × (SameSigned t t'
            ⊎ (Forged t t'
                ⊎ ((out.body ≢ out'.body) × (libs.sha256 out.body ≡ libs.sha256 out'.body))))
  authenticate-same_signature let_through let_through' carried token token' rooted rooted' plain
        hex =
      let a = authenticate-Authentic libs state now req out let_through in
      let a' = authenticate-Authentic libs state now' req' out' let_through' in
      let t = a.timestamp in
      let t' = a'.timestamp in
      (
        t,
        t',
        (a.timestamp_str, a.stamped, a.parsed),
        (a'.timestamp_str, a'.stamped, a'.parsed),
        elim (text_eq-cases (signed_bytes libs t req out.body)
            (signed_bytes libs t' req' out'.body)) [
              | inl same ↦
                  elim (same_signed t t' (parse_i64-IsI64 _ t a.parsed)
                    (parse_i64-IsI64 _ t' a'.parsed) token token' rooted rooted' plain hex same) [
                      | inl x ↦ inl x
                      | inr x ↦ inr (inr x)
                    ]
              | inr other ↦ inr (
                  inl (record {
                    mac = a.mac;
                    keyed = a.keyed;
                    differ = other;
                    collide = cc (
                      signed_out a,
                      signed_out' a',
                      a.carried,
                      a'.carried,
                      carried,
                      a.keyed,
                      a'.keyed,
                    );
                  }))
            ],
      )

-- ===== src/Server/Examples/Signatures.antt =====
-- Signed requests, at two moments and with other headers.
use transity_terminal_resv_c.Common.{
  ℕ, zero, suc, ℤ, pos, ◌≡◌, ◌≢◌, ◌⊎◌, refl, sym, ◌-ℤ◌, if◌then◌else◌, Text, codes, text_eq, List,
  [], ◌∷◌, ◌++◌, none, some, ok, arith,
}
use transity_terminal_resv_c.Common.Std.{
  as_bytes, char_bytes, parse_i64, show_i64, sub_i64, abs_i64, to_uppercase,
}
use transity_terminal_resv_c.Server.Http.{Request, Libs}
use transity_terminal_resv_c.Server.Hmac.{skew_exceeded, signing_string, is_allowed, authenticate}
use transity_terminal_resv_c.Server.Hmac.Split.{IsFree, IsPlain, split_first}
use transity_terminal_resv_c.Server.Hmac.Signed.{
  Stamped, SameSigned, Forged, authenticate-same_signature,
}
use transity_terminal_resv_c.Server.Hmac.Unsigned.{authenticate-other_headers}
use transity_terminal_resv_c.Server.Examples.{plain_libs, app_state}

-- Each number as so many zeros and a one.
unary : ℕ → Text
unary zero = []
unary (suc n) = 48 ∷ unary n

spell : List ℕ → Text
spell [] = []
spell (n ∷ s) = unary n ++ 49 ∷ spell s

unary-IsFree : (n : ℕ) → IsFree 49 (unary n)
unfolding unary
unary-IsFree zero = tt
unary-IsFree (suc n) = ((λ e. omega arith), unary-IsFree n)

unary_inj : (n m : ℕ) → unary n ≡ unary m → n ≡ m
unfolding unary
unary_inj zero zero e = refl
unary_inj zero (suc m) e = cc
unary_inj (suc n) zero e = cc
unary_inj (suc n) (suc m) e = ground (arith, e, unary_inj n m)

unary_some : (n : ℕ) (s : Text) → unary n ++ 49 ∷ s ≢ []
unfolding unary
unary_some zero s e = cc
unary_some (suc n) s e = cc

spell_inj : (x y : List ℕ) → spell x ≡ spell y → x ≡ y
unfolding spell
spell_inj [] [] e = refl
spell_inj [] (m ∷ y) e = absurd (unary_some m (spell y) (sym e))
spell_inj (n ∷ x) [] e = absurd (unary_some n (spell x) e)
spell_inj (n ∷ x) (m ∷ y) e =
    let (same, rest) =
      split_first 49 (unary n) (unary m) (spell x) (spell y) (unary-IsFree n) (unary-IsFree m) e in
    cc (unary_inj n m same, spell_inj x y rest)

IsPlain-unary : (n : ℕ) (s : Text) → IsPlain s → IsPlain (unary n ++ s)
unfolding unary
IsPlain-unary zero s p = p
IsPlain-unary (suc n) s p = ((omega arith, λ e. omega arith), IsPlain-unary n s p)

spell-IsPlain : (x : List ℕ) → IsPlain (spell x)
unfolding spell
spell-IsPlain [] = tt
spell-IsPlain (n ∷ x) =
    IsPlain-unary n (49 ∷ spell x) ((omega arith, λ e. omega arith), spell-IsPlain x)

abbrev spelling_libs : Libs
spelling_libs = record plain_libs { hex_encode = spell; sha256 = λ b. [] }

abbrev target : Text
target = codes "/api/v1/holds"

-- Signed at second 1000, with a key for the idempotency layer.
abbrev signed_with : Text → Text → Request
signed_with svc_id key = record {
  method = codes "post";
  path = target;
  header = λ name.
      if text_eq name (codes "x-service-id")
      then some svc_id
      else if text_eq name (codes "x-timestamp")
      then some (codes "1000")
      else if text_eq name (codes "x-signature")
      then some (as_bytes (signing_string (pos 1000) (codes "POST") target []))
      else if text_eq name (codes "idempotency-key")
      then some key
      else none;
  body = [];
  service = none;
}

abbrev through : Text → Text → Request
through svc_id key = record (signed_with svc_id key) { service = some svc_id }

-- No slash in the method.
post_token : IsFree 47 (as_bytes (to_uppercase (codes "post")))
unfolding as_bytes char_bytes to_uppercase
post_token =
    ((λ e. omega arith), ((λ e. omega arith), ((λ e. omega arith), ((λ e. omega arith), tt))))

let_through :
    authenticate spelling_libs app_state (pos 1010) (signed_with (codes "a") (codes "k"))
    ≡ ok (through (codes "a") (codes "k"))
unfolding skew_exceeded authenticate text_eq parse_i64 abs_i64 sub_i64 ◌-ℤ◌ as_bytes signing_string
    show_i64 char_bytes to_uppercase spell is_allowed
let_through = refl

let_through_again :
    authenticate spelling_libs app_state (pos 1020) (signed_with (codes "b") (codes "l"))
    ≡ ok (through (codes "b") (codes "l"))
unfolding skew_exceeded authenticate text_eq parse_i64 abs_i64 sub_i64 ◌-ℤ◌ as_bytes signing_string
    show_i64 char_bytes to_uppercase spell is_allowed
let_through_again = refl

authenticate-same_signature_example :
    (t t' : ℤ) × Stamped (signed_with (codes "a") (codes "k")) t
    × Stamped (signed_with (codes "b") (codes "l")) t'
    × (SameSigned spelling_libs app_state
          (pos 1010)
          (pos 1020)
          (signed_with (codes "a") (codes "k"))
          (signed_with (codes "b") (codes "l"))
          (through (codes "a") (codes "k"))
          (through (codes "b") (codes "l"))
          (codes "api/v1/holds")
          (codes "api/v1/holds")
          t
          t'
        ⊎ (Forged spelling_libs app_state
              (pos 1010)
              (pos 1020)
              (signed_with (codes "a") (codes "k"))
              (signed_with (codes "b") (codes "l"))
              (through (codes "a") (codes "k"))
              (through (codes "b") (codes "l"))
              (codes "api/v1/holds")
              (codes "api/v1/holds")
              t
              t'
            ⊎ (((through (codes "a") (codes "k")).body ≢ [])
                × (spelling_libs.sha256 [] ≡ spelling_libs.sha256 []))))
unfolding text_eq as_bytes char_bytes to_uppercase
authenticate-same_signature_example =
    authenticate-same_signature spelling_libs app_state (pos 1010) (pos 1020)
      (signed_with (codes "a") (codes "k")) (signed_with (codes "b") (codes "l"))
      (through (codes "a") (codes "k")) (through (codes "b") (codes "l")) (codes "api/v1/holds")
      (codes "api/v1/holds") let_through let_through_again refl post_token post_token refl refl
      spell-IsPlain spell_inj

authenticate-other_headers_example :
    authenticate spelling_libs app_state (pos 1010) (record (signed_with (codes "a") (codes "k")) {
      header = (signed_with (codes "b") (codes "l")).header;
    })
    ≡ ok (record (through (codes "a") (codes "k")) {
      header = (signed_with (codes "b") (codes "l")).header;
      service = some (codes "b");
    })
unfolding text_eq is_allowed
authenticate-other_headers_example =
    authenticate-other_headers spelling_libs app_state (pos 1010)
      (signed_with (codes "a") (codes "k")) (through (codes "a") (codes "k"))
      (signed_with (codes "b") (codes "l")).header (codes "b") let_through refl refl refl refl

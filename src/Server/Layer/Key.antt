-- ===== src/Server/Layer/Key.antt =====
-- idempotency.rs: `scoped_idempotency_key`.
use mathlib.Core.List.{append-nil, append_assoc}
use transity_terminal_resv_c.Common.{
  text_eq-cases, ℕ, ◌<◌, ◌^◌, ◌≡◌, ◌≢◌, ◌⊎◌, inl, inr, refl, ap, sym, ◌∙◌, Text, List, [], ◌∷◌,
  ◌++◌, length, arith,
}
use transity_terminal_resv_c.Common.Std.{as_bytes, to_be_bytes}
use transity_terminal_resv_c.Server.Http.{Libs}

-- What one part feeds to the digest: its length in 8 bytes, its bytes and a bar.
unfoldable pub framed : Text → List ℕ
unfolding as_bytes to_be_bytes
framed part = to_be_bytes (length (as_bytes part)) ++ as_bytes part ++ 124 ∷ []

unfoldable pub preimage : Text → Text → Text → Text → List ℕ
unfolding framed
preimage svc_id method path raw_key =
    framed svc_id ++ (framed method ++ (framed path ++ framed raw_key))

unfoldable pub scoped_idempotency_key : Libs → Text → Text → Text → Text → Text
unfolding preimage
scoped_idempotency_key libs svc_id method path raw_key =
    libs.hex_encode (libs.sha256 (preimage svc_id method path raw_key))

append_right_inj :
    {A : Type 0} (xs ys us vs : List A)
    → length xs ≡ length ys
    → xs ++ us ≡ ys ++ vs
    → (xs ≡ ys) × (us ≡ vs)
append_right_inj [] [] us vs l e = (refl, e)
append_right_inj [] (y ∷ ys) us vs l e = absurd (omega arith)
append_right_inj (x ∷ xs) [] us vs l e = absurd (omega arith)
append_right_inj (x ∷ xs) (y ∷ ys) us vs l e = ground (arith, append_right_inj xs ys us vs)

to_be_bytes_inj : (n m : ℕ) → n < 2 ^ 64 → m < 2 ^ 64 → to_be_bytes n ≡ to_be_bytes m → n ≡ m
unfolding to_be_bytes
to_be_bytes_inj n m hn hm e = ground arith

framed-append :
    (s : Text) (us : List ℕ)
    → framed s ++ us ≡ to_be_bytes (length (as_bytes s)) ++ (as_bytes s ++ 124 ∷ us)
unfolding framed to_be_bytes
framed-append s us =
    ap (λ x. to_be_bytes (length (as_bytes s)) ++ x) (append_assoc (as_bytes s) (124 ∷ []) us)

same_width : (n m : ℕ) → length (to_be_bytes n) ≡ length (to_be_bytes m)
unfolding to_be_bytes
same_width n m = refl

-- A part whose length fits in 64 bits.
abbrev pub Fits : Text → Type 0
Fits s = length (as_bytes s) < 2 ^ 64

-- A framed part can be told from what follows it.
framed_inj :
    (s t : Text) (us vs : List ℕ)
    → Fits s
    → Fits t
    → framed s ++ us ≡ framed t ++ vs
    → (as_bytes s ≡ as_bytes t) × (us ≡ vs)
framed_inj s t us vs hs ht e =
    let (widths, rest) =
      append_right_inj (to_be_bytes (length (as_bytes s))) (to_be_bytes (length (as_bytes t)))
        (as_bytes s ++ 124 ∷ us) (as_bytes t ++ 124 ∷ vs) (same_width _ _)
        (sym (framed-append s us) ∙ e ∙ framed-append t vs) in
    let (bytes, tail) =
      append_right_inj (as_bytes s) (as_bytes t) (124 ∷ us) (124 ∷ vs)
        (to_be_bytes_inj (length (as_bytes s)) (length (as_bytes t)) hs ht widths) rest in
    (bytes, ground (arith, tail))

-- The four parts of a request, as bytes.
abbrev pub parts : Text → Text → Text → Text → List (List ℕ)
parts svc_id method path raw_key =
    as_bytes svc_id ∷ as_bytes method ∷ as_bytes path ∷ as_bytes raw_key ∷ []

preimage_inj :
    (a b c d a' b' c' d' : Text)
    → Fits a × Fits b × Fits c × Fits d
    → Fits a' × Fits b' × Fits c' × Fits d'
    → preimage a b c d ≡ preimage a' b' c' d'
    → parts a b c d ≡ parts a' b' c' d'
unfolding preimage
preimage_inj a b c d a' b' c' d' (ha, hb, hc, hd) (ha', hb', hc', hd') e =
    let (ea, e1) = framed_inj a a' _ _ ha ha' e in
    let (eb, e2) = framed_inj b b' _ _ hb hb' e1 in
    let (ec, e3) = framed_inj c c' _ _ hc hc' e2 in
    let (ed, _) =
      framed_inj d d' [] [] hd hd' (append-nil (framed d) ∙ e3 ∙ sym (append-nil (framed d'))) in
    cc (ea, eb, ec, ed)

module _ (libs : Libs) (a b c d a' b' c' d' : Text) where
  -- Where hex is injective and all parts fit in 64-bit lengths, two requests with the same cache key
  -- have the same four parts, or exhibit a collision of SHA-256.
  pub scoped_idempotency_key_inj :
      ((x y : List ℕ) → libs.hex_encode x ≡ libs.hex_encode y → x ≡ y)
      → Fits a × Fits b × Fits c × Fits d
      → Fits a' × Fits b' × Fits c' × Fits d'
      → scoped_idempotency_key libs a b c d ≡ scoped_idempotency_key libs a' b' c' d'
      → (parts a b c d ≡ parts a' b' c' d')
        ⊎ ((preimage a b c d ≢ preimage a' b' c' d')
            × (libs.sha256 (preimage a b c d) ≡ libs.sha256 (preimage a' b' c' d')))
  unfolding scoped_idempotency_key
  scoped_idempotency_key_inj hex fits fits' e =
      elim (text_eq-cases (preimage a b c d) (preimage a' b' c' d')) [
        | inl same ↦ inl (preimage_inj a b c d a' b' c' d' fits fits' same)
        | inr other ↦ inr (other, hex _ _ e)
      ]

-- ===== src/Server/Hmac/Split.antt =====
-- How the parts of a signing string can be told apart.
use mathlib.Core.List.{append_assoc}
use transity_terminal_resv_c.Common.{
  ℕ, zero, suc, ℤ, pos, negsuc, ◌+◌, ◌/◌, ◌%◌, ◌^◌, ◌<◌, ◌≡◌, ◌≢◌, refl, ap, sym, ◌∙◌, Text, List,
  [], ◌∷◌, ◌++◌, some, inl, inr, arith, All,
}
use transity_terminal_resv_c.Common.Std.{
  as_bytes, char_bytes, parse_i64, parse_unsigned, some_digits, in_range, parse_digits, show_digits,
  show_i64, to_uppercase,
}
use transity_terminal_resv_c.Server.Hmac.{signing_string}
use transity_terminal_resv_c.Server.Hmac.Laws.{IsI64}
use transity_terminal_resv_c.Server.Hmac.Sign.{
  less_or_more, show_small, show_large, show_digits_cons, parse_digits-show_digits,
}

-- The character is not among these.
abbrev pub IsFree : ℕ → List ℕ → Type 0
IsFree c s = All (λ b. b ≢ c) s

-- At the first separator.
pub split_first :
    (c : ℕ) (xs ys us vs : List ℕ)
    → IsFree c xs
    → IsFree c ys
    → xs ++ c ∷ us ≡ ys ++ c ∷ vs
    → (xs ≡ ys) × (us ≡ vs)
split_first c [] [] us vs f g e = ground (arith, e)
split_first c [] (y ∷ ys) us vs f g e = ground (arith, e, g)
split_first c (x ∷ xs) [] us vs f g e = ground (arith, e, f)
split_first c (x ∷ xs) (y ∷ ys) us vs f g e = ground (arith, e, split_first c xs ys us vs f.1 g.1)

free-append-absurd : (c : ℕ) (xs us vs : List ℕ) → IsFree c vs → xs ++ c ∷ us ≡ vs → ⊥
free-append-absurd c [] us [] f e = cc
free-append-absurd c [] us (v ∷ vs) f e = ground (arith, e, f)
free-append-absurd c (x ∷ xs) us [] f e = cc
free-append-absurd c (x ∷ xs) us (v ∷ vs) f e = ground (arith, e, free-append-absurd c xs us vs f.1)

-- At the last separator.
split_last :
    (c : ℕ) (xs ys us vs : List ℕ)
    → IsFree c us
    → IsFree c vs
    → xs ++ c ∷ us ≡ ys ++ c ∷ vs
    → (xs ≡ ys) × (us ≡ vs)
split_last c [] [] us vs f g e = ground (arith, e)
split_last c [] (y ∷ ys) us vs f g e = ground (arith, e, free-append-absurd c ys vs us f)
split_last c (x ∷ xs) [] us vs f g e = ground (arith, e, free-append-absurd c xs us vs g)
split_last c (x ∷ xs) (y ∷ ys) us vs f g e = ground (arith, e, split_last c xs ys us vs f g)

-- ASCII other than a full stop.
abbrev pub IsPlain : Text → Type 0
IsPlain s = All (λ c. (c < 128) × (c ≢ 46)) s

plain_bytes : (s : Text) → IsPlain s → (as_bytes s ≡ s) × IsFree 46 (as_bytes s)
unfolding as_bytes char_bytes
plain_bytes [] p = ground arith
plain_bytes (c ∷ s) p = ground (arith, plain_bytes s p.1)

IsPlain-append : (s t : Text) → IsPlain s → IsPlain t → IsPlain (s ++ t)
IsPlain-append [] t p q = q
IsPlain-append (c ∷ s) t p q = (p.0, IsPlain-append s t p.1 q)

digits-IsPlain : (fuel n : ℕ) → IsPlain (show_digits fuel n)
digits-IsPlain zero n = unfold show_digits in tt
digits-IsPlain (suc fuel) n = elim (less_or_more n 10) [
  | inl small ↦ rw (show_small fuel n small) ((omega arith, λ e. omega arith), tt)
  | inr large ↦ rw (show_large fuel n large) (
      IsPlain-append (show_digits fuel (n / 10)) ((48 + n % 10) ∷ []) (digits-IsPlain fuel (n / 10))
        ((omega arith, λ e. omega arith), tt))
]

show_i64-IsPlain : (t : ℤ) → IsPlain (show_i64 t)
unfolding show_i64
show_i64-IsPlain (pos n) = digits-IsPlain 20 n
show_i64-IsPlain (negsuc n) = ((omega arith, λ e. omega arith), digits-IsPlain 20 (suc n))

pub parse_i64-IsI64 : (s : Text) (t : ℤ) → parse_i64 s ≡ some t → IsI64 t
unfolding parse_i64 parse_unsigned some_digits in_range
parse_i64-IsI64 s t e = ground (arith, e)

digits_inj : (n m : ℕ) → n < 10 ^ 20 → m < 10 ^ 20 → show_digits 20 n ≡ show_digits 20 m → n ≡ m
digits_inj n m hn hm e = cc (
  parse_digits-show_digits 19 n (omega arith),
  parse_digits-show_digits 19 m (omega arith),
  ap (parse_digits 0) e,
)

-- The digits of a number do not start with a minus sign.
digits_unsigned : (n : ℕ) (s : Text) → n < 10 ^ 20 → show_digits 20 n ≢ 45 ∷ s
digits_unsigned n s h e =
    let (c, s', same, l) = show_digits_cons 19 n (omega arith) in ground (arith, same, l, e)

show_i64_inj : (t u : ℤ) → IsI64 t → IsI64 u → show_i64 t ≡ show_i64 u → t ≡ u
unfolding show_i64
show_i64_inj (pos n) (pos m) ht hu e = ap pos (digits_inj n m (omega arith) (omega arith) e)
show_i64_inj (pos n) (negsuc m) ht hu e = absurd (digits_unsigned n _ (omega arith) e)
show_i64_inj (negsuc n) (pos m) ht hu e = absurd (digits_unsigned m _ (omega arith) (sym e))
show_i64_inj (negsuc n) (negsuc m) ht hu e =
    let same = digits_inj (suc n) (suc m) (omega arith) (omega arith) (ground (arith, e)) in
    ground (arith, same)

as_bytes-append : (s t : Text) → as_bytes (s ++ t) ≡ as_bytes s ++ as_bytes t
unfolding as_bytes
as_bytes-append [] t = refl
as_bytes-append (c ∷ s) t =
    ap (λ x. char_bytes c ++ x) (as_bytes-append s t)
    ∙ sym (append_assoc (char_bytes c) (as_bytes s) (as_bytes t))

-- At the first slash, after a full stop.
split_slash :
    (xs ys us vs : List ℕ)
    → IsFree 47 xs
    → IsFree 47 ys
    → xs ++ 46 ∷ 47 ∷ us ≡ ys ++ 46 ∷ 47 ∷ vs
    → (xs ≡ ys) × (us ≡ vs)
split_slash [] [] us vs f g e = ground (arith, e)
split_slash [] (y ∷ []) us vs f g e = ground (arith, e)
split_slash [] (y ∷ z ∷ ys) us vs f g e = ground (arith, e, g)
split_slash (x ∷ []) [] us vs f g e = ground (arith, e)
split_slash (x ∷ z ∷ xs) [] us vs f g e = ground (arith, e, f)
split_slash (x ∷ xs) (y ∷ ys) us vs f g e = ground (arith, e, split_slash xs ys us vs f.1 g.1)

dot_bytes : (s : Text) → as_bytes (46 ∷ s) ≡ 46 ∷ as_bytes s
unfolding as_bytes char_bytes
dot_bytes s = refl

signing_bytes :
    (t : ℤ) (method path d : Text)
    → as_bytes (signing_string t method path d)
      ≡ as_bytes (show_i64 t)
        ++ 46 ∷ (as_bytes (to_uppercase method) ++ 46 ∷ (as_bytes path ++ 46 ∷ as_bytes d))
unfolding signing_string
signing_bytes t method path d = simp (as_bytes-append, dot_bytes, append_assoc) refl

-- The parts of a signing string can be read back from its bytes, if its method has no slash, its
-- path starts with one, and its digest has no full stop.
pub signing_string_inj :
    (t t' : ℤ) (m m' q q' d d' : Text)
    → IsI64 t
    → IsI64 t'
    → IsFree 47 (as_bytes (to_uppercase m))
    → IsFree 47 (as_bytes (to_uppercase m'))
    → IsPlain d
    → IsPlain d'
    → as_bytes (signing_string t m (47 ∷ q) d) ≡ as_bytes (signing_string t' m' (47 ∷ q') d')
    → (t ≡ t')
      × (as_bytes (to_uppercase m) ≡ as_bytes (to_uppercase m'))
      × (as_bytes (47 ∷ q) ≡ as_bytes (47 ∷ q'))
      × (d ≡ d')
unfolding as_bytes char_bytes
signing_string_inj t t' m m' q q' d d' ht ht' hm hm' hd hd' e =
    let (bytes_t, free_t) = plain_bytes (show_i64 t) (show_i64-IsPlain t) in
    let (bytes_t', free_t') = plain_bytes (show_i64 t') (show_i64-IsPlain t') in
    let (bytes_d, free_d) = plain_bytes d hd in
    let (bytes_d', free_d') = plain_bytes d' hd' in
    let (stamps, e1) =
      split_first 46 (as_bytes (show_i64 t)) (as_bytes (show_i64 t')) _ _ free_t free_t'
        (sym (signing_bytes t m (47 ∷ q) d) ∙ e ∙ signing_bytes t' m' (47 ∷ q') d') in
    let (methods, e2) =
      split_slash (as_bytes (to_uppercase m)) (as_bytes (to_uppercase m')) _ _ hm hm' e1 in
    let (paths, digests) = split_last 46 (as_bytes q) (as_bytes q') _ _ free_d free_d' e2 in
    (
      show_i64_inj t t' ht ht' (sym bytes_t ∙ stamps ∙ bytes_t'),
      methods,
      ap (λ s. 47 ∷ s) paths,
      sym bytes_d ∙ digests ∙ bytes_d',
    )

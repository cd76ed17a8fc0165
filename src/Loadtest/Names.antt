-- ===== src/Loadtest/Names.antt =====
-- The names of the seeded seats: LIKE finds them, and no two are the same.
use transity_terminal_resv_c.Common.{
  ℕ, zero, suc, pos, ◌+◌, ◌≤◌, ◌-◌, ◌^◌, ◌<◌, ◌≡◌, ◌≢◌, refl, ap, ◌∙◌, ◌==◌, Bool, true, false,
  ◌&&◌, Text, [], ◌∷◌, ◌++◌, length, All, some, arith,
}
use transity_terminal_resv_c.Common.Std.{parse_digits, show_i64, show_digits}
use transity_terminal_resv_c.Server.Hmac.Sign.{parse_digits-show_digits}
use transity_terminal_resv_c.Loadtest.Seed.{like, like_char, zeros, padded, seat_name}

-- No character of it has a meaning to LIKE.
abbrev pub IsLiteral : Text → Type 0
IsLiteral = All (λ c. (c ≢ 37) × (c ≢ 92) × (c ≢ 95))

unfoldable pub starts_with : Text → Text → Bool
starts_with [] s = true
starts_with (c ∷ p) [] = false
starts_with (c ∷ p) (d ∷ s) = c == d && starts_with p s

like_literal :
    (c d : ℕ) (p s : Text)
    → (c ≢ 37) × (c ≢ 92) × (c ≢ 95)
    → like (c ∷ d ∷ p) s ≡ like_char false c (like (d ∷ p)) s
unfolding like
like_literal c d p s h = ground arith

-- LIKE with a literal prefix and a percent sign asks for the prefix.
pub like-prefix : (p s : Text) → IsLiteral p → like (p ++ 37 ∷ []) s ≡ starts_with p s
unfolding like like_char starts_with
like-prefix [] s h = refl
like-prefix (c ∷ []) [] h = like_literal c 37 [] [] h.0
like-prefix (c ∷ []) (e ∷ s) h = like_literal c 37 [] (e ∷ s) h.0
like-prefix (c ∷ d ∷ p) [] h = like_literal c d (p ++ 37 ∷ []) [] h.0
like-prefix (c ∷ d ∷ p) (e ∷ s) h =
    like_literal c d (p ++ 37 ∷ []) (e ∷ s) h.0 ∙ ap (λ b. c == e && b) (like-prefix (d ∷ p) s h.1)

starts_with-append : (p s : Text) → starts_with p (p ++ s) ≡ true
unfolding starts_with
starts_with-append [] s = refl
starts_with-append (c ∷ p) s = ground (arith, starts_with-append p s)

pub like-seat_name :
    (prefix : Text) (i : ℕ)
    → IsLiteral prefix
    → like (prefix ++ 37 ∷ []) (seat_name prefix i) ≡ true
unfolding seat_name
like-seat_name prefix i h = like-prefix prefix _ h ∙ starts_with-append prefix _

append_inj : (p s t : Text) → p ++ s ≡ p ++ t → s ≡ t
append_inj [] s t e = e
append_inj (c ∷ p) s t e = append_inj p s t (cc)

parse_digits-zeros : (n : ℕ) (s : Text) → parse_digits 0 (zeros n ++ s) ≡ parse_digits 0 s
unfolding parse_digits zeros
parse_digits-zeros zero s = refl
parse_digits-zeros (suc n) s = parse_digits-zeros n s

pub parse_digits-padded : (i : ℕ) → i < 10 ^ 20 → parse_digits 0 (padded i) ≡ some i
unfolding padded show_i64
parse_digits-padded i h =
    parse_digits-zeros (4 - length (show_digits 20 i)) (show_digits 20 i)
    ∙ parse_digits-show_digits 19 i h

length-zeros : (n : ℕ) (s : Text) → length (zeros n ++ s) ≡ n + length s
unfolding zeros
length-zeros zero s = omega arith
length-zeros (suc n) s = omega (arith, length-zeros n s)

pub padded_wide : (i : ℕ) → 4 ≤ length (padded i)
unfolding padded
padded_wide i = omega (arith, length-zeros (4 - length (show_i64 (pos i))) (show_i64 (pos i)))

-- Different seats have different names.
pub seat_name_inj :
    (prefix : Text) (i j : ℕ)
    → i < 10 ^ 20
    → j < 10 ^ 20
    → seat_name prefix i ≡ seat_name prefix j
    → i ≡ j
unfolding seat_name
seat_name_inj prefix i j hi hj e =
    let same = ap (parse_digits 0) (append_inj prefix _ _ e) in
    cc (parse_digits-padded i hi, parse_digits-padded j hj, same)

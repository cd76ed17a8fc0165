-- ===== src/Common/Strings.antt =====
-- Text as a list of code points, with its equality test.
use Prim.Native.Nat.{ℕ}
use Prim.Native.Char.{code}
use Prim.Native.String.{String}
use mathlib.Core.Path.{◌≡◌, refl}
use mathlib.Core.Logic.{◌↔◌, ◌≢◌, ◌⊎◌, inl, inr}
use mathlib.Core.Bool.{Bool, true, false, ◌&&◌, ◌||◌}
use mathlib.Core.List.{List, [], ◌∷◌}
use native.Mathlib.Omega.{arith}
use transity_terminal_resv_c.Common.Tests.{◌==◌, ltb, Bool-cases}

abbrev pub Text : Type 0
Text = List ℕ

-- A literal of the source as a `Text`.
abbrev pub codes : String → Text
codes String.[] = []
codes (String.◌∷◌ c s) = code c ∷ codes s

unfoldable pub text_eq : Text → Text → Bool
text_eq [] [] = true
text_eq (a ∷ s) (b ∷ t) = a == b && text_eq s t
text_eq _ _ = false

pub text_eq_iff : (s t : Text) → (text_eq s t ≡ true) ↔ (s ≡ t)
unfolding text_eq
text_eq_iff [] [] = ground arith
text_eq_iff [] (b ∷ t) = ground arith
text_eq_iff (a ∷ s) [] = ground arith
text_eq_iff (a ∷ s) (b ∷ t) = ground (arith, text_eq_iff s t)

pub text_eq_refl : (s : Text) → text_eq s s ≡ true
text_eq_refl s = (text_eq_iff s s).1 refl

pub text_eq-false : (s t : Text) → s ≢ t → text_eq s t ≡ false
text_eq-false s t ne = ground (arith, text_eq_iff s t)

pub text_eq-cases : (s t : Text) → (s ≡ t) ⊎ (s ≢ t)
text_eq-cases s t = elim (Bool-cases (text_eq s t)) [
  | inl same ↦ inl ((text_eq_iff s t).0 same)
  | inr other ↦ inr (λ e. cc (other, (text_eq_iff s t).1 e))
]

-- The order of Rust's `String`: that of the UTF-8 bytes, which is that of the code points.
unfoldable pub text_ltb : Text → Text → Bool
text_ltb [] [] = false
text_ltb [] (b ∷ t) = true
text_ltb (a ∷ s) [] = false
text_ltb (a ∷ s) (b ∷ t) = ltb a b || (a == b && text_ltb s t)

pub text_ltb_trichotomy :
    (s t : Text) → text_ltb s t ≡ false → text_eq s t ≡ false → text_ltb t s ≡ true
unfolding text_ltb text_eq
text_ltb_trichotomy [] [] h e = cc
text_ltb_trichotomy [] (b ∷ t) h e = cc
text_ltb_trichotomy (a ∷ s) [] h e = refl
text_ltb_trichotomy (a ∷ s) (b ∷ t) h e = ground (arith, text_ltb_trichotomy s t)

pub text_ltb_trans :
    (s t u : Text) → text_ltb s t ≡ true → text_ltb t u ≡ true → text_ltb s u ≡ true
unfolding text_ltb
text_ltb_trans [] (b ∷ t) (c ∷ u) h k = refl
text_ltb_trans (a ∷ s) (b ∷ t) (c ∷ u) h k = ground (arith, text_ltb_trans s t u)
text_ltb_trans [] [] u h k = cc
text_ltb_trans (a ∷ s) [] u h k = cc
text_ltb_trans [] (b ∷ t) [] h k = cc
text_ltb_trans (a ∷ s) (b ∷ t) [] h k = cc

pub text_ltb_irrefl : (s : Text) → text_ltb s s ≡ false
unfolding text_ltb
text_ltb_irrefl [] = refl
text_ltb_irrefl (a ∷ s) = ground (arith, text_ltb_irrefl s)

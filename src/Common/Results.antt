-- ===== src/Common/Results.antt =====
-- Rust's `Result`, and stateful code that may fail: what was written before an error stays written.
use mathlib.Core.Bool.{Bool, true, false}

pub data Result {ℓ κ} (E : Type ℓ) (A : Type κ) : Type (ℓ ⊔ κ) where
  ok : A → Result E A
  err : E → Result E A

abbrev pub Action {ℓ} : Type ℓ → Type ℓ → Type ℓ → Type ℓ
Action E S A = S → Result E A × S

module _ {ℓ} {E S A : Type ℓ} where
  abbrev pub pure : A → Action E S A
  pure a s = (ok a, s)

  abbrev pub raise : E → Action E S A
  raise e s = (err e, s)

module _ {ℓ} {E S A B : Type ℓ} where
  -- The `?` operator between two stateful steps.
  infixl 5 ◌>>=◌ ◌>>◌
  abbrev pub ◌>>=◌ : Action E S A → (A → Action E S B) → Action E S B
  ◌>>=◌ m f s = let (r, s') = m s in elim r [ ok a ↦ f a s' | err e ↦ (err e, s') ]

  abbrev pub ◌>>◌ : Action E S A → Action E S B → Action E S B
  m >> k = m >>= λ _. k

-- `if b { m } else { n }` between actions.
abbrev pub branch {ℓ} : {E S A : Type ℓ} → Bool → Action E S A → Action E S A → Action E S A
branch true m n s = m s
branch false m n s = n s

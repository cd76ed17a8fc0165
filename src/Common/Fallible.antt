-- ===== src/Common/Fallible.antt =====
-- Rust's `Result` without a state: the `?` operator and what turns an option or a test into one.
use mathlib.Core.Path.{◌≡◌, refl}
use mathlib.Core.Logic.{◌⊎◌, inl, inr}
use mathlib.Core.Bool.{Bool, true, false}
use mathlib.Core.Option.{Option, none, some}
use transity_terminal_resv_c.Common.Results.{Result, ok, err}

module _ {ℓ} {E A : Type ℓ} where
  abbrev pub ok_or : Option A → E → Result E A
  ok_or none e = err e
  ok_or (some a) e = ok a

module _ {ℓ} {E A B : Type ℓ} where
  infixl 5 ◌>>=◌ ◌>>◌
  abbrev pub ◌>>=◌ : Result E A → (A → Result E B) → Result E B
  ok a >>= f = f a
  err e >>= f = err e

  abbrev pub ◌>>◌ : Result E A → Result E B → Result E B
  m >> k = m >>= λ _. k

-- `if !b { return Err(e) }`.
abbrev pub ensure : {E : Type 0} → Bool → E → Result E (Unit {0})
ensure true e = ok tt
ensure false e = err e

-- A chain that succeeds has succeeded at each of its steps.
module _ {ℓ} {E A B : Type ℓ} where
  pub ok_or-ok :
      (o : Option A) (e : E) (f : A → Result E B) (b : B)
      → (ok_or o e >>= f) ≡ ok b
      → (a : A) × (o ≡ some a) × (f a ≡ ok b)
  ok_or-ok none e f b h = cc
  ok_or-ok (some a) e f b h = (a, refl, h)

-- A chain that fails has failed at one of its steps.
module _ {ℓ} {E A B : Type ℓ} where
  pub ok_or-err :
      (o : Option A) (e : E) (f : A → Result E B) (x : E)
      → (ok_or o e >>= f) ≡ err x
      → ((o ≡ none) × (x ≡ e)) ⊎ ((a : A) × (o ≡ some a) × (f a ≡ err x))
  ok_or-err none e f x h = inl (refl, cc)
  ok_or-err (some a) e f x h = inr (a, refl, h)

pub ensure-err :
    {E B : Type 0} (t : Bool) (e : E) (k : Result E B) (x : E)
    → (ensure t e >> k) ≡ err x
    → ((t ≡ false) × (x ≡ e)) ⊎ ((t ≡ true) × (k ≡ err x))
ensure-err true e k x h = inr (refl, h)
ensure-err false e k x h = inl (refl, cc)

pub ensure-ok :
    {E B : Type 0} (t : Bool) (e : E) (k : Result E B) (b : B)
    → (ensure t e >> k) ≡ ok b
    → (t ≡ true) × (k ≡ ok b)
ensure-ok true e k b h = (refl, h)
ensure-ok false e k b h = cc

pub ok_inj : {E A : Type 0} {a b : A} → ◌≡◌ {A = Result E A} (ok a) (ok b) → b ≡ a
ok_inj e = cc

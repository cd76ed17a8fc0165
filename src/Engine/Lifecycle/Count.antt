-- ===== src/Engine/Lifecycle/Count.antt =====
-- How many rows a selection has, and how many after a deletion.
use transity_terminal_resv_c.Common.{
  ℕ, zero, suc, ◌+◌, ◌≤◌, ◌≡◌, refl, Bool, true, false, List, [], ◌∷◌, any, All, length, arith,
  Bool-cases, inl, inr, if◌then◌else◌,
}
use transity_terminal_resv_c.Engine.Database.Sql.{select_where, delete_where, limit}

module _ {ℓ} {A : Type ℓ} where
  -- A deletion of other rows.
  pub select_where-delete_where :
      (p q : A → Bool)
      → ((x : A) → p x ≡ true → q x ≡ false)
      → (xs : List A) → select_where p (delete_where q xs) ≡ select_where p xs
  unfolding select_where delete_where
  select_where-delete_where p q other [] = refl
  select_where-delete_where p q other (x ∷ xs) =
      ground (arith, other x, select_where-delete_where p q other xs)

  pub fewer :
      (p q : A → Bool) (xs : List A)
      → length (select_where p (delete_where q xs)) ≤ length (select_where p xs)
  unfolding select_where delete_where
  fewer p q [] = omega arith
  fewer p q (x ∷ xs) = ground (arith, fewer p q xs)

  -- A deletion that takes the first `n` rows of a narrower selection.
  pub fewer_among :
      (e p q : A → Bool)
      → ((x : A) → e x ≡ true → p x ≡ true)
      → (n : ℕ) (xs : List A) → n ≤ length (select_where e xs)
      → All (λ x. q x ≡ true) (limit n (select_where e xs))
      → length (select_where p (delete_where q xs)) + n ≤ length (select_where p xs)
  unfolding select_where delete_where limit
  fewer_among e p q narrower zero xs enough h = omega (arith, fewer p q xs)
  fewer_among e p q narrower (suc n) [] enough h = omega arith
  fewer_among e p q narrower (suc n) (x ∷ xs) enough h =
      go (e x) refl enough h (fewer_among e p q narrower n xs)
        (fewer_among e p q narrower (suc n) xs)
    where
      go :
          (b : Bool)
          → e x ≡ b
          → suc n ≤ length (if b then x ∷ select_where e xs else select_where e xs)
          → All
              (λ y. q y ≡ true)
              (limit (suc n) (if b then x ∷ select_where e xs else select_where e xs))
          → (n ≤ length (select_where e xs)
              → All (λ y. q y ≡ true) (limit n (select_where e xs))
              → length (select_where p (delete_where q xs)) + n ≤ length (select_where p xs))
          → (suc n ≤ length (select_where e xs)
              → All (λ y. q y ≡ true) (limit (suc n) (select_where e xs))
              → length (select_where p (delete_where q xs)) + suc n ≤ length (select_where p xs))
          → length (select_where p (delete_where q (x ∷ xs))) + suc n
            ≤ length (select_where p (x ∷ xs))
      go true hit enough k one more =
          ground (arith, hit, narrower x hit, k.0, one (omega arith) k.1)
      go false miss enough k one more = ground (arith, miss, more enough k)

  -- A narrower selection.
  pub narrower_count :
      (p q : A → Bool)
      → ((x : A) → p x ≡ true → q x ≡ true)
      → (xs : List A) → length (select_where p xs) ≤ length (select_where q xs)
  unfolding select_where
  narrower_count p q narrower [] = omega arith
  narrower_count p q narrower (x ∷ xs) = ground (arith, narrower x, narrower_count p q narrower xs)

  pub none_selected :
      (p : A → Bool) (xs : List A) → any p xs ≡ false → length (select_where p xs) ≡ 0
  unfolding select_where
  none_selected p [] h = refl
  none_selected p (x ∷ xs) h = ground (arith, none_selected p xs)

  pub All-limit :
      (q : A → Bool) (n : ℕ) (xs : List A)
      → All (λ x. q x ≡ true) xs
      → All (λ x. q x ≡ true) (limit n xs)
  unfolding limit
  All-limit q zero xs h = tt
  All-limit q (suc n) [] h = tt
  All-limit q (suc n) (x ∷ xs) h = (h.0, All-limit q n xs h.1)

  pub All-select_where : (p : A → Bool) (xs : List A) → All (λ x. p x ≡ true) (select_where p xs)
  unfolding select_where
  All-select_where p [] = tt
  All-select_where p (x ∷ xs) = elim (Bool-cases (p x)) [
    | inl hit ↦ rw hit (hit, All-select_where p xs)
    | inr miss ↦ rw miss (All-select_where p xs)
  ]

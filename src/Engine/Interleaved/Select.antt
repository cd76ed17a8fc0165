-- ===== src/Engine/Interleaved/Select.antt =====
-- What a selection of rows sees of updates and deletions of other rows.
use transity_terminal_resv_c.Common.{
  ◌≡◌, refl, Bool, true, false, ◌&&◌, List, [], ◌∷◌, ◌++◌, map, All, arith,
}
use transity_terminal_resv_c.Engine.Database.Sql.{
  select_where, find_where, update_where, delete_where,
}

module _ {ℓ κ} {A : Type ℓ} (P : A → Type κ) where
  pub All-split : (xs ys : List A) (a : A) → All P (xs ++ a ∷ ys) → P a × All P (xs ++ ys)
  All-split [] ys a h = h
  All-split (x ∷ xs) ys a h = let (p, rest) = All-split xs ys a h.1 in (p, (h.0, rest))

module _ {ℓ κ μ} {A : Type ℓ} {B : Type μ} (P : B → Type κ) (k : A → B) where
  pub All-map : (xs : List A) → All P (map k xs) → All (λ x. P (k x)) xs
  All-map [] h = tt
  All-map (x ∷ xs) h = (h.0, All-map xs h.1)

module _ {ℓ κ} {A : Type ℓ} where
  pub All-zip :
      (P Q R : A → Type κ) (xs : List A)
      → ((a : A) → P a → Q a → R a)
      → All P xs
      → All Q xs
      → All R xs
  All-zip P Q R [] f p q = tt
  All-zip P Q R (x ∷ xs) f p q = (f x p.0 q.0, All-zip P Q R xs f p.1 q.1)

module _ {ℓ} {A : Type ℓ} (p q : A → Bool) where
  pub select_where-update_where :
      (f : A → A)
      → ((x : A) → q (f x) ≡ q x)
      → (xs : List A) → All (λ x. p x ≡ true → q x ≡ false) xs
      → select_where q (update_where p f xs) ≡ select_where q xs
  unfolding select_where update_where
  select_where-update_where f same [] h = refl
  select_where-update_where f same (x ∷ xs) h =
      ground (arith, h.0, same x, select_where-update_where f same xs h.1)

  pub select_where-delete_where :
      (xs : List A)
      → All (λ x. p x ≡ true → q x ≡ false) xs
      → select_where q (delete_where p xs) ≡ select_where q xs
  unfolding select_where delete_where
  select_where-delete_where [] h = refl
  select_where-delete_where (x ∷ xs) h = ground (arith, h.0, select_where-delete_where xs h.1)

  -- A search with two tests is one among the rows that meet the first.
  pub find_where-select_where :
      (xs : List A) → find_where (λ x. p x && q x) xs ≡ find_where q (select_where p xs)
  unfolding find_where select_where
  find_where-select_where [] = refl
  find_where-select_where (x ∷ xs) = ground (arith, find_where-select_where xs)

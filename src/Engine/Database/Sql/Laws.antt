-- ===== src/Engine/Database/Sql/Laws.antt =====
-- The laws of the SQL clauses.
use transity_terminal_resv_c.Common.{
  suc, ◌≡◌, refl, ap, ◌∙◌, Bool, true, false, ◌||◌, List, [], ◌∷◌, map, some, arith, length, any,
  All, Bool-cases, inl, inr,
}
use transity_terminal_resv_c.Engine.Database.Sql.{
  find_where, update_where, delete_where, insert_by, order_by,
}

module _ {ℓ} {A : Type ℓ} where
  length-insert_by :
      (le : A → A → Bool) (x : A) (xs : List A) → length (insert_by le x xs) ≡ suc (length xs)
  unfolding insert_by
  length-insert_by le x [] = refl
  length-insert_by le x (y ∷ ys) = ground (arith, length-insert_by le x ys)

  pub length-order_by : (le : A → A → Bool) (xs : List A) → length (order_by le xs) ≡ length xs
  unfolding order_by
  length-order_by le [] = refl
  length-order_by le (x ∷ xs) =
      length-insert_by le x (order_by le xs) ∙ ap suc (length-order_by le xs)

  any-insert_by :
      (le : A → A → Bool) (p : A → Bool) (x : A) (xs : List A)
      → any p (insert_by le x xs) ≡ (p x || any p xs)
  unfolding insert_by
  any-insert_by le p x [] = refl
  any-insert_by le p x (y ∷ ys) = ground (arith, any-insert_by le p x ys)

  pub any-order_by :
      (le : A → A → Bool) (p : A → Bool) (xs : List A) → any p (order_by le xs) ≡ any p xs
  unfolding order_by
  any-order_by le p [] = refl
  any-order_by le p (x ∷ xs) =
      any-insert_by le p x (order_by le xs) ∙ ap (λ b. p x || b) (any-order_by le p xs)

  -- A row that a search finds meets its test.
  pub find_where_sound :
      (p : A → Bool) (xs : List A) (x : A) → find_where p xs ≡ some x → p x ≡ true
  unfolding find_where
  find_where_sound p [] x e = ground arith
  find_where_sound p (y ∷ ys) x e = elim (Bool-cases (p y)) [
    | inl h ↦ ground arith
    | inr h ↦ find_where_sound p ys x (ground arith)
  ]

  pub length-update_where :
      (p : A → Bool) (f : A → A) (xs : List A) → length (update_where p f xs) ≡ length xs
  unfolding update_where
  length-update_where p f [] = refl
  length-update_where p f (x ∷ xs) = ap suc (length-update_where p f xs)

  pub update_where-none :
      (p : A → Bool) (f : A → A)
      → ((x : A) → p x ≡ false)
      → (xs : List A) → update_where p f xs ≡ xs
  unfolding update_where
  update_where-none p f never [] = refl
  update_where-none p f never (x ∷ xs) = ground (arith, never x, update_where-none p f never xs)

  pub delete_where-none :
      (p : A → Bool) → ((x : A) → p x ≡ false) → (xs : List A) → delete_where p xs ≡ xs
  unfolding delete_where
  delete_where-none p never [] = refl
  delete_where-none p never (x ∷ xs) = ground (arith, never x, delete_where-none p never xs)

module _ {ℓ κ} {A : Type ℓ} where
  -- What holds of each row before holds of it after an update, where the update and the rows that
  -- it leaves keep it.
  pub All-update_where :
      (P Q : A → Type κ) (p : A → Bool) (f : A → A)
      → ((x : A) → p x ≡ true → P x → Q (f x))
      → ((x : A) → p x ≡ false → P x → Q x)
      → (xs : List A) → All P xs
      → All Q (update_where p f xs)
  unfolding update_where
  All-update_where P Q p f hit miss [] h = tt
  All-update_where P Q p f hit miss (x ∷ xs) h = elim (Bool-cases (p x)) [
    | inl e ↦ rw e (hit x e h.0, All-update_where P Q p f hit miss xs h.1)
    | inr e ↦ rw e (miss x e h.0, All-update_where P Q p f hit miss xs h.1)
  ]

  -- The rows that a deletion spares.
  pub All-delete_where :
      (P Q : A → Type κ) (p : A → Bool)
      → ((x : A) → p x ≡ false → P x → Q x)
      → (xs : List A) → All P xs
      → All Q (delete_where p xs)
  unfolding delete_where
  All-delete_where P Q p spared [] h = tt
  All-delete_where P Q p spared (x ∷ xs) h = elim (Bool-cases (p x)) [
    | inl e ↦ rw e (All-delete_where P Q p spared xs h.1)
    | inr e ↦ rw e (spared x e h.0, All-delete_where P Q p spared xs h.1)
  ]

  pub map-update_where {μ} :
      {B : Type μ} (k : A → B) (p : A → Bool) (f : A → A)
      → ((x : A) → k (f x) ≡ k x)
      → (xs : List A) → map k (update_where p f xs) ≡ map k xs
  unfolding update_where
  map-update_where k p f same [] = refl
  map-update_where k p f same (x ∷ xs) = elim (Bool-cases (p x)) [
    | inl e ↦ rw (e, same x, map-update_where k p f same xs)
    | inr e ↦ rw (e, map-update_where k p f same xs)
  ]

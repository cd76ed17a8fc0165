-- ===== src/Engine/Database/Sql/Any.antt =====
-- Whether some row meets a test, before and after an update.
use transity_terminal_resv_c.Common.{
  ◌≡◌, refl, Bool, true, false, ◌&&◌, List, [], ◌∷◌, none, arith, any, All,
}
use transity_terminal_resv_c.Engine.Database.Sql.{find_where, update_where, delete_where}

module _ {ℓ} {A : Type ℓ} where
  -- A test that every row fails which the update reaches or leaves.
  pub any-false : (p : A → Bool) (xs : List A) → All (λ x. p x ≡ false) xs → any p xs ≡ false
  any-false p [] h = refl
  any-false p (x ∷ xs) h = ground (arith, any-false p xs h.1)

  pub All-false : (p : A → Bool) (xs : List A) → any p xs ≡ false → All (λ x. p x ≡ false) xs
  All-false p [] h = tt
  All-false p (x ∷ xs) h = (ground arith, All-false p xs (ground arith))

  module _ (q p : A → Bool) (f : A → A) where
    -- An update that keeps the test true where it is true.
    pub any-update_where :
        ((x : A) → q x ≡ true → q (f x) ≡ true)
        → (xs : List A) → any q xs ≡ true
        → any q (update_where p f xs) ≡ true
    unfolding update_where
    any-update_where keep [] e = cc
    any-update_where keep (x ∷ xs) e = ground (arith, keep x, any-update_where keep xs)

    -- A row that the update reaches and makes meet the test.
    pub any-update_where_hit :
        (k : A → Bool)
        → ((x : A) → k x ≡ true → p x ≡ true)
        → ((x : A) → k x ≡ true → q (f x) ≡ true)
        → (xs : List A) → any k xs ≡ true
        → any q (update_where p f xs) ≡ true
    unfolding update_where
    any-update_where_hit k reach meet [] e = cc
    any-update_where_hit k reach meet (x ∷ xs) e =
        ground (arith, reach x, meet x, any-update_where_hit k reach meet xs)

  pub any-All_contra :
      (k q p : A → Bool)
      → ((x : A) → k x ≡ true → p x ≡ true)
      → (xs : List A) → All (λ x. p x ≡ true → q x ≡ false) xs
      → any (λ x. k x && q x) xs ≡ true
      → ⊥
  any-All_contra k q p reach [] h e = cc
  any-All_contra k q p reach (x ∷ xs) h e =
      ground (arith, reach x, h.0, any-All_contra k q p reach xs h.1)

  pub delete_where_unfound :
      (p : A → Bool) (xs : List A) → find_where p xs ≡ none → delete_where p xs ≡ xs
  unfolding find_where delete_where
  delete_where_unfound p [] e = refl
  delete_where_unfound p (x ∷ xs) e = ground (arith, delete_where_unfound p xs)

module _ {ℓ κ} {A : Type ℓ} (P : A → Type κ) where
  -- Two updates, one after the other, that give every row back.
  pub update_where_undo :
      (p q : A → Bool) (f g : A → A)
      → ((x : A) → P x → p x ≡ true → (q (f x) ≡ true) × (g (f x) ≡ x))
      → ((x : A) → P x → p x ≡ false → q x ≡ false)
      → (xs : List A) → All P xs
      → update_where q g (update_where p f xs) ≡ xs
  unfolding update_where
  update_where_undo p q f g hit miss [] h = refl
  update_where_undo p q f g hit miss (x ∷ xs) h =
      ground (arith, hit x h.0, miss x h.0, update_where_undo p q f g hit miss xs h.1)

  -- An update that reaches no row.
  pub update_where_unreached :
      (p : A → Bool) (f : A → A)
      → ((x : A) → P x → p x ≡ false)
      → (xs : List A) → All P xs
      → update_where p f xs ≡ xs
  unfolding update_where
  update_where_unreached p f miss [] h = refl
  update_where_unreached p f miss (x ∷ xs) h =
      ground (arith, miss x h.0, update_where_unreached p f miss xs h.1)

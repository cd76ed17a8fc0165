-- ===== src/Engine/Database/Sql/Find.antt =====
-- What a search finds after an update, a deletion or an insertion, and what a selection tells of
-- each row.
use mathlib.Core.Path.{subst}
use transity_terminal_resv_c.Common.{
  ◌≡◌, refl, Bool, true, false, ◌&&◌, List, [], ◌∷◌, none, some, arith, any, All, Bool-cases, inl,
  inr,
}
use transity_terminal_resv_c.Engine.Database.Sql.{
  select_where, find_where, update_where, delete_where,
}

module _ {ℓ} {A : Type ℓ} (q p : A → Bool) where
  -- The row that a search finds is found still, if the deletion spares it.
  pub find_where-delete_where :
      (xs : List A) (x : A)
      → find_where q xs ≡ some x
      → p x ≡ false
      → find_where q (delete_where p xs) ≡ some x
  unfolding find_where delete_where
  find_where-delete_where [] x e h = ground arith
  find_where-delete_where (y ∷ ys) x e h = ground (arith, find_where-delete_where ys x)

  pub find_where-delete_where-none :
      (xs : List A) → find_where q xs ≡ none → find_where q (delete_where p xs) ≡ none
  unfolding find_where delete_where
  find_where-delete_where-none [] e = refl
  find_where-delete_where-none (y ∷ ys) e = ground (arith, find_where-delete_where-none ys)

  -- A search for what the deletion removes finds nothing.
  pub find_where-delete_where_self :
      ((x : A) → q x ≡ true → p x ≡ true) → (xs : List A) → find_where q (delete_where p xs) ≡ none
  unfolding find_where delete_where
  find_where-delete_where_self f [] = refl
  find_where-delete_where_self f (y ∷ ys) = ground (arith, f y, find_where-delete_where_self f ys)

  module _ (f : A → A) (same : (x : A) → q (f x) ≡ q x) where
    -- So it is after an update that leaves it alone.
    pub find_where-update_where :
        (xs : List A) (x : A)
        → find_where q xs ≡ some x
        → p x ≡ false
        → find_where q (update_where p f xs) ≡ some x
    unfolding find_where update_where
    find_where-update_where [] x e h = ground arith
    find_where-update_where (y ∷ ys) x e h = ground (arith, same y, find_where-update_where ys x)

    -- And an update of it is what is found then.
    pub find_where-update_where_hit :
        (xs : List A) (x : A)
        → find_where q xs ≡ some x
        → p x ≡ true
        → find_where q (update_where p f xs) ≡ some (f x)
    unfolding find_where update_where
    find_where-update_where_hit [] x e h = ground arith
    find_where-update_where_hit (y ∷ ys) x e h =
        ground (arith, same y, find_where-update_where_hit ys x)

    pub find_where-update_where-none :
        (xs : List A) → find_where q xs ≡ none → find_where q (update_where p f xs) ≡ none
    unfolding find_where update_where
    find_where-update_where-none [] e = refl
    find_where-update_where-none (y ∷ ys) e =
        ground (arith, same y, find_where-update_where-none ys)

  -- A narrower search finds the same row, if that row meets the further test.
  pub find_where-and :
      (xs : List A) (x : A)
      → find_where q xs ≡ some x
      → p x ≡ true
      → find_where (λ y. q y && p y) xs ≡ some x
  unfolding find_where
  find_where-and [] x e h = cc
  find_where-and (y ∷ ys) x e h = ground (arith, find_where-and ys x)

  pub any-select_where :
      (xs : List A) → any q (select_where p xs) ≡ false → All (λ x. p x ≡ true → q x ≡ false) xs
  unfolding select_where
  any-select_where [] e = tt
  any-select_where (y ∷ ys) e = (ground arith, any-select_where ys (ground arith))

module _ {ℓ κ μ} {A : Type ℓ} (P : A → Type κ) (Q : A → Type μ) where
  pub All-both : (xs : List A) → All P xs → All Q xs → All (λ x. P x × Q x) xs
  All-both [] h k = tt
  All-both (x ∷ xs) h k = ((h.0, k.0), All-both xs h.1 k.1)

module _ {ℓ κ} {A : Type ℓ} (P : A → Type κ) (p : A → Bool) where
  pub All-find_where : (xs : List A) (x : A) → All P xs → find_where p xs ≡ some x → P x
  unfolding find_where
  All-find_where [] x h e = cc
  All-find_where (y ∷ ys) x h e = elim (Bool-cases (p y)) [
    | inl hit ↦ subst P (ground arith) h.0
    | inr miss ↦ All-find_where ys x h.1 (ground arith)
  ]

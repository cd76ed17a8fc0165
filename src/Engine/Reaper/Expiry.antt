-- ===== src/Engine/Reaper/Expiry.antt =====
-- Which holds a run of the reaper takes away: the unconsumed holds that have expired, and, after
-- their retention, consumed ones.
use mathlib.Core.Path.{subst}
use transity_terminal_resv_c.Common.{
  ℕ, zero, suc, ◌≤◌, ◌≡◌, refl, sym, ◌∙◌, ap, Bool, true, false, not, ◌&&◌, ◌||◌, Text, text_eq,
  text_eq_iff, text_eq_refl, List, [], ◌∷◌, none, some, any, All, All-mono, length, arith,
  Bool-cases, inl, inr,
}
use transity_terminal_resv_c.Engine.Types.{Instant}
use transity_terminal_resv_c.Engine.Database.{HoldRow, Tables, Env}
use transity_terminal_resv_c.Engine.Database.Sql.{select_where, find_where, delete_where, limit}
use transity_terminal_resv_c.Engine.Database.Where.{has_ref, is_active}
use transity_terminal_resv_c.Engine.Invariant.{HasDistinctRefs}
use transity_terminal_resv_c.Engine.Invariant.Keep.{has_ref-eq}
use transity_terminal_resv_c.Engine.Reaper.{
  is_expired, expired_rows, delete_expired, unmark_expired, batch_limit,
}
use transity_terminal_resv_c.Engine.Reaper.Outcome.{reaped_tables, refs_of}

or_right : (a b : Bool) → b ≡ true → (a || b) ≡ true
or_right a b e = ground arith

module _ {ℓ} {A : Type ℓ} where
  limit_all : (n : ℕ) (xs : List A) → length xs ≤ n → limit n xs ≡ xs
  unfolding limit
  limit_all zero [] h = refl
  limit_all (suc n) [] h = refl
  limit_all (suc n) (x ∷ xs) h = ap (◌∷◌ x) (limit_all n xs (omega arith))
  limit_all zero (x ∷ xs) h = absurd (omega arith)

  any-limit : (q : A → Bool) (n : ℕ) (xs : List A) → any q (limit n xs) ≡ true → any q xs ≡ true
  unfolding limit
  any-limit q zero xs h = cc
  any-limit q (suc n) [] h = cc
  any-limit q (suc n) (x ∷ xs) h = ground (arith, any-limit q n xs)

  any-select_where_both :
      (q p : A → Bool) (xs : List A) → any q (select_where p xs) ≡ any (λ x. q x && p x) xs
  unfolding select_where
  any-select_where_both q p [] = refl
  any-select_where_both q p (x ∷ xs) = ground (arith, any-select_where_both q p xs)

  any-delete_where :
      (q p : A → Bool) (xs : List A)
      → All (λ x. q x ≡ true → p x ≡ true) xs
      → any q (delete_where p xs) ≡ false
  unfolding delete_where
  any-delete_where q p [] f = refl
  any-delete_where q p (x ∷ xs) f = ground (arith, f.0, any-delete_where q p xs f.1)

  -- Each entry that is related to itself is related to some entry.
  any_self :
      (e : A → Bool) (r : A → A → Bool)
      → ((x : A) → e x ≡ true → r x x ≡ true)
      → (xs : List A) → All (λ x. e x ≡ true → any (r x) xs ≡ true) xs
  any_self e r self [] = tt
  any_self e r self (x ∷ xs) = (
    λ h. ground (arith, self x h),
    All-mono (λ y. e y ≡ true → any (r y) xs ≡ true) (λ y. e y ≡ true → any (r y) (x ∷ xs) ≡ true)
        xs (λ y k h. or_right (r y x) (any (r y) xs) (k h)) (any_self e r self xs),
  )

any-refs_of :
    (s : Text) (hs : List HoldRow)
    → any (text_eq s) (refs_of hs) ≡ any (λ h. text_eq s h.hold_ref) hs
any-refs_of s [] = refl
any-refs_of s (h ∷ hs) = ap (λ b. text_eq s h.hold_ref || b) (any-refs_of s hs)

has_ref-flip : (s : Text) (h : HoldRow) → has_ref s h ≡ false → text_eq s h.hold_ref ≡ false
unfolding has_ref
has_ref-flip s h e = ground (arith, text_eq_iff s h.hold_ref, text_eq_iff h.hold_ref s)

module _ (p : HoldRow → Bool) (s : Text) where
  abbrev named_and : HoldRow → Bool
  named_and h = text_eq s h.hold_ref && p h

  unnamed : (hs : List HoldRow) → find_where (has_ref s) hs ≡ none → any named_and hs ≡ false
  unfolding find_where has_ref
  unnamed [] e = refl
  unnamed (h ∷ hs) e =
      ground (arith, unnamed hs, text_eq_iff s h.hold_ref, text_eq_iff h.hold_ref s)

  -- Where refs are distinct, the one row of a ref is the row that a search finds.
  the_named :
      (hs : List HoldRow) (x : HoldRow)
      → HasDistinctRefs hs
      → find_where (has_ref s) hs ≡ some x
      → any named_and hs ≡ true
      → p x ≡ true
  unfolding find_where
  the_named [] x d e h = cc
  the_named (y ∷ ys) x d e h = elim (Bool-cases (has_ref s y)) [
    | inl hit ↦
        ground (
          arith,
          unnamed ys (subst (λ r. find_where (has_ref r) ys ≡ none) (has_ref-eq s y hit) d.0),
        )
    | inr miss ↦ the_named ys x d.1 (ground arith) (ground (arith, has_ref-flip s y miss))
  ]

expired_active : (now : Instant) (h : HoldRow) → is_expired now h ≡ true → is_active h ≡ true
unfolding is_expired
expired_active now h e = ground arith

module _ (env : Env) where
  abbrev pub eligible : HoldRow → Bool
  eligible h = is_expired env.db_now h && not (env.row_locked h.hold_ref)

  abbrev pub in_batch : List HoldRow → HoldRow → Bool
  in_batch rows h = any (text_eq h.hold_ref) (refs_of rows) && is_active h

  -- A hold that is not expired is in no batch.
  pub live_not_in_batch :
      (t : Tables) (hold_ref : Text) (x : HoldRow)
      → HasDistinctRefs t.holds
      → find_where (has_ref hold_ref) t.holds ≡ some x
      → is_expired env.db_now x ≡ false
      → any (text_eq hold_ref) (refs_of (expired_rows env t)) ≡ false
  unfolding expired_rows
  live_not_in_batch t hold_ref x d e live =
      elim (Bool-cases
        (any (text_eq hold_ref) (refs_of (limit batch_limit (select_where eligible t.holds))))) [
          | inr free ↦ free
          | inl caught ↦
              let among =
                sym (any-refs_of hold_ref (limit batch_limit (select_where eligible t.holds)))
                ∙ caught in
              let selected =
                any-limit (λ h. text_eq hold_ref h.hold_ref) batch_limit
                  (select_where eligible t.holds) among in
              let meets = the_named eligible hold_ref t.holds x d e (
                sym (any-select_where_both (λ h. text_eq hold_ref h.hold_ref) eligible t.holds)
                ∙ selected) in
              ground arith
        ]

  -- When the batch is not cut off and no row is locked, every expired hold is in it.
  pub expired_in_batch :
      (t : Tables)
      → length (select_where eligible t.holds) ≤ batch_limit
      → ((s : Text) → env.row_locked s ≡ false)
      → any (is_expired env.db_now) (reaped_tables (expired_rows env t) t).holds ≡ false
  unfolding expired_rows unmark_expired delete_expired
  expired_in_batch t fits unlocked =
      any-delete_where (is_expired env.db_now) (in_batch (expired_rows env t)) t.holds (
        All-mono
          (λ h.
            eligible h ≡ true
            → any (λ k. text_eq h.hold_ref k.hold_ref && eligible k) t.holds ≡ true)
          (λ h. is_expired env.db_now h ≡ true → in_batch (expired_rows env t) h ≡ true) t.holds
          (λ h caught expired. ground (
            arith,
            unlocked h.hold_ref,
            caught,
            batch h.hold_ref,
            expired_active env.db_now h expired,
          ))
          (any_self eligible (λ h k. text_eq h.hold_ref k.hold_ref && eligible k)
            (λ h e. ground (arith, text_eq_refl h.hold_ref)) t.holds))
    where
      batch :
          (s : Text)
          → any (text_eq s) (refs_of (expired_rows env t))
            ≡ any (λ k. text_eq s k.hold_ref && eligible k) t.holds
      batch s =
          ap (λ rows. any (text_eq s) (refs_of rows)) (limit_all batch_limit _ fits)
          ∙ any-refs_of s (select_where eligible t.holds)
          ∙ any-select_where_both (λ h. text_eq s h.hold_ref) eligible t.holds

  pub expired_rows_all :
      (t : Tables)
      → length (select_where eligible t.holds) ≤ batch_limit
      → expired_rows env t ≡ select_where eligible t.holds
  unfolding expired_rows
  expired_rows_all t fits = limit_all batch_limit _ fits

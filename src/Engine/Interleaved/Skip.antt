-- ===== src/Engine/Interleaved/Skip.antt =====
-- SKIP LOCKED: the reaper, next to transactions that have their locks.
use transity_terminal_resv_c.Common.{
  ℕ, zero, suc, ℤ, ◌≡◌, refl, ap, ◌∙◌, Bool, true, false, ◌&&◌, Text, text_eq, text_eq_iff, List,
  [], ◌∷◌, Option, none, some, any, All, All-mono, All-of, arith, inl, inr, Bool-cases, Result, ok,
  err,
}
use transity_terminal_resv_c.Engine.Types.{SqlxError, SeatHoldRequest}
use transity_terminal_resv_c.Engine.Events.{Publisher}
use transity_terminal_resv_c.Engine.Database.{InventoryRow, HoldRow, Tables, Env, World}
use transity_terminal_resv_c.Engine.Database.Sql.{select_where, limit}
use transity_terminal_resv_c.Engine.Database.Where.{at_seat, has_ref, is_active}
use transity_terminal_resv_c.Engine.Hold.{is_taken}
use transity_terminal_resv_c.Engine.Invariant.{HasDistinctRefs, IsConsistent}
use transity_terminal_resv_c.Engine.Invariant.Keep.{has_ref-eq}
use transity_terminal_resv_c.Engine.Reaper.{
  ref_in, unmark_expired, delete_expired, expired_rows, batch_limit, expire_holds,
}
use transity_terminal_resv_c.Engine.Reaper.Outcome.{
  purged_tables, reaped_tables, refs_of, Reaps, run_reaper_cases,
}
use transity_terminal_resv_c.Engine.System.{hold, confirm, cancel, release, expire}
use transity_terminal_resv_c.Engine.System.Committed.{with_lock, expire_holds_db-committed}
use transity_terminal_resv_c.Engine.Interleaved.{
  Txn, ref_of, locks_row, HoldChecked, IsChecked, RefSame, Untouched,
}
use transity_terminal_resv_c.Engine.Interleaved.Select.{
  All-zip, select_where-update_where, select_where-delete_where,
}
use transity_terminal_resv_c.Engine.Interleaved.Checked.{IsChecked-Untouched, checked_untaken}
use transity_terminal_resv_c.Engine.Interleaved.Purge.{purged-Untouched}

-- The batch: the rows of the transactions are not in it.
any-refs_of :
    (r : Text) (rows : List HoldRow)
    → any (text_eq r) (refs_of rows) ≡ any (λ h. text_eq r h.hold_ref) rows
any-refs_of r [] = refl
any-refs_of r (h ∷ hs) = rw (any-refs_of r hs) refl

limit_misses :
    (q : HoldRow → Bool) (n : ℕ) (hs : List HoldRow) → any q hs ≡ false → any q (limit n hs) ≡ false
unfolding limit
limit_misses q zero hs e = refl
limit_misses q (suc n) [] e = refl
limit_misses q (suc n) (h ∷ hs) e = ground (arith, limit_misses q n hs)

select_misses :
    (q p : HoldRow → Bool) (hs : List HoldRow)
    → ((h : HoldRow) → q h ≡ true → p h ≡ false)
    → any q (select_where p hs) ≡ false
unfolding select_where
select_misses q p [] f = refl
select_misses q p (h ∷ hs) f = ground (arith, f h, select_misses q p hs f)

skipped :
    (env : Env) (t : Tables) (r : Text)
    → env.row_locked r ≡ true
    → any (text_eq r) (refs_of (expired_rows env t)) ≡ false
unfolding expired_rows
skipped env t r locked =
    any-refs_of r (expired_rows env t)
    ∙ limit_misses (λ h. text_eq r h.hold_ref) batch_limit _
        (select_misses (λ h. text_eq r h.hold_ref) _ t.holds
          (λ h e. ground (arith, ap env.row_locked ((text_eq_iff r h.hold_ref).0 e))))

-- The rows of a transaction are not in the batch.
abbrev NotIn : List HoldRow → Option Text → Type 0
NotIn rows none = Unit
NotIn rows (some r) = any (text_eq r) (refs_of rows) ≡ false

reaped-RefSame :
    (rows : List HoldRow) (t : Tables) (r : Option Text)
    → NotIn rows r
    → RefSame t (reaped_tables rows t) r
unfolding unmark_expired delete_expired
reaped-RefSame rows t none out = tt
reaped-RefSame rows t (some r) out =
    select_where-delete_where (λ h. any (text_eq h.hold_ref) (refs_of rows) && is_active h)
      (has_ref r) t.holds
      (All-of _
        (λ h batch. elim (Bool-cases (has_ref r h)) [
          | inl hit ↦
              cc (ap (λ s. any (text_eq s) (refs_of rows)) (has_ref-eq r h hit), batched h batch)
          | inr miss ↦ miss
        ])
        t.holds)
  where
    batched :
        (h : HoldRow)
        → (any (text_eq h.hold_ref) (refs_of rows) && is_active h) ≡ true
        → any (text_eq h.hold_ref) (refs_of rows) ≡ true
    batched h e = ground arith

free_of_refs :
    (refs : List Text) (r : InventoryRow) → is_taken r ≡ false → ref_in refs r.hold_ref ≡ false
unfolding is_taken ref_in
free_of_refs refs r e = ground arith

reaped-SeatsSame :
    (rows : List HoldRow) (t : Tables) (req : SeatHoldRequest)
    → HoldChecked t req
    → select_where (locks_row req) (reaped_tables rows t).inventory
      ≡ select_where (locks_row req) t.inventory
unfolding unmark_expired delete_expired at_seat
reaped-SeatsSame rows t req c =
    select_where-update_where (λ r. ref_in (refs_of rows) r.hold_ref) (locks_row req)
      (λ r. record r { hold_ref = none }) (λ r. refl) t.inventory
      (All-mono (λ r. locks_row req r ≡ true → is_taken r ≡ false) _ t.inventory
        (λ r free held. elim (Bool-cases (locks_row req r)) [
          | inl locked ↦ cc (free_of_refs (refs_of rows) r (free locked))
          | inr other ↦ other
        ])
        (checked_untaken t req c))

reaped-Untouched :
    (rows : List HoldRow) (t : Tables) (x : Txn)
    → IsChecked t x
    → NotIn rows (ref_of x.1)
    → Untouched t (reaped_tables rows t) x
reaped-Untouched rows t (_, hold req _) c out = (reaped-SeatsSame rows t req c, tt)
reaped-Untouched rows t (_, confirm r _) c out = (tt, reaped-RefSame rows t (some r) out)
reaped-Untouched rows t (_, release r) c out = (tt, reaped-RefSame rows t (some r) out)
reaped-Untouched rows t (_, cancel _ _ _) c out = absurd c
reaped-Untouched rows t (_, expire _) c out = absurd c

Untouched-trans : (t u v : Tables) (x : Txn) → Untouched t u x → Untouched u v x → Untouched t v x
Untouched-trans t u v (_, hold _ _) a b = (b.0 ∙ a.0, tt)
Untouched-trans t u v (_, confirm _ _) a b = (tt, b.1 ∙ a.1)
Untouched-trans t u v (_, release _) a b = (tt, b.1 ∙ a.1)
Untouched-trans t u v (_, cancel _ _ _) a b = (tt, tt)
Untouched-trans t u v (_, expire _) a b = (tt, tt)

Untouched-refl : (t : Tables) (x : Txn) → Untouched t t x
Untouched-refl t (_, hold _ _) = (refl, tt)
Untouched-refl t (_, confirm _ _) = (tt, refl)
Untouched-refl t (_, release _) = (tt, refl)
Untouched-refl t (_, cancel _ _ _) = (tt, tt)
Untouched-refl t (_, expire _) = (tt, tt)

-- The ref that a transaction has locked is among those that the reaper finds locked.
abbrev pub Skips : Env → Option Text → Type 0
Skips env none = Unit
Skips env (some r) = env.row_locked r ≡ true

skipped_ref :
    (env : Env) (t : Tables) (r : Option Text) → Skips env r → NotIn (expired_rows env t) r
skipped_ref env t none locked = tt
skipped_ref env t (some r) locked = skipped env t r locked

Reaps-Untouched :
    (env : Env) (retention_days : ℤ) (t t' : Tables) (r : Result SqlxError (List HoldRow)) (x : Txn)
    → Reaps env retention_days t t' r
    → HasDistinctRefs t.holds
    → IsChecked t x
    → Skips env (ref_of x.1)
    → Untouched t t' x
Reaps-Untouched env retention_days t t' r x reaps d c locked = go r reaps
  where
    u : Tables
    u = purged_tables env retention_days t

    purged : Untouched t u x
    purged = purged-Untouched env retention_days t x d c

    go : (r : Result SqlxError (List HoldRow)) → Reaps env retention_days t t' r → Untouched t t' x
    go (ok rows) (same, e) =
        rw (e, same)
          (Untouched-trans t u (reaped_tables (expired_rows env u) u) x purged (
            reaped-Untouched (expired_rows env u) u x (IsChecked-Untouched t u x purged c)
              (skipped_ref env u (ref_of x.1) locked)))
    go (err _) (inl e) = rw e (Untouched-refl t x)
    go (err _) (inr e) = rw e purged

module _ {S : Type 0} (publisher : Publisher S) (env : Env) (retention_days : ℤ) (w : World S) where
  -- A run of the reaper on consistent tables, whatever fails in it, leaves the rows alone that open
  -- transactions have locked, if it finds the rows of seat_holds locked that they have locked.
  pub expire_holds-Untouched :
      (holders : List Txn)
      → IsConsistent w.database.committed
      → All (IsChecked w.database.committed) holders
      → All (λ x. Skips env (ref_of x.1)) holders
      → let t' = (expire_holds env publisher retention_days w).1.database.committed in
        All (Untouched w.database.committed t') holders
  unfolding expire_holds
  expire_holds-Untouched holders consistent checked locked =
      elim (expire_holds_db-committed env retention_days w.database) [
        | inl e ↦ rw e (All-of _ (Untouched-refl w.database.committed) holders)
        | inr e ↦ rw e (
            All-zip _ _ _ holders
              (λ x c l.
                Reaps-Untouched env retention_days w.database.committed _ _ x
                  (run_reaper_cases env retention_days (with_lock env w.database))
                  consistent.distinct c l)
              checked locked)
      ]

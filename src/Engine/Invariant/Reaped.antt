-- ===== src/Engine/Invariant/Reaped.antt =====
-- The purge and the batch release of the reaper keep the tables consistent.
use transity_terminal_resv_c.Common.{
  ℤ, ◌≡◌, Bool, true, false, ◌&&◌, Text, text_eq, List, Option, none, some, arith, any, All-mono,
  ap, ◌-ℤ◌, inl, inr, Bool-cases, Result, ok, err,
}
use transity_terminal_resv_c.Engine.Types.{Instant, SqlxError, days}
use transity_terminal_resv_c.Engine.Database.{HoldRow, Tables, Env}
use transity_terminal_resv_c.Engine.Database.Sql.{delete_where}
use transity_terminal_resv_c.Engine.Database.Sql.Laws.{All-update_where, find_where_sound}
use transity_terminal_resv_c.Engine.Database.Sql.Find.{find_where-delete_where}
use transity_terminal_resv_c.Engine.Database.Where.{has_ref, is_active}
use transity_terminal_resv_c.Engine.Reaper.{
  purge_enabled, is_purgeable, purge_confirmed, ref_in, unmark_expired, delete_expired,
}
use transity_terminal_resv_c.Engine.Reaper.Outcome.{purged_tables, reaped_tables, refs_of, Reaps}
use transity_terminal_resv_c.Engine.Invariant.{IsOwned, IsConsistent}
use transity_terminal_resv_c.Engine.Invariant.Keep.{
  IsOwned-keep, HasDistinctRefs-delete_where, has_ref-eq,
}

active-spared :
    (cutoff : Instant) (h : HoldRow) → is_active h ≡ true → is_purgeable cutoff h ≡ false
unfolding is_purgeable
active-spared cutoff h e = rw e

purge-IsConsistent :
    (cutoff : Instant) (t : Tables) → IsConsistent t → IsConsistent (purge_confirmed cutoff t)
unfolding purge_confirmed
purge-IsConsistent cutoff t c = record {
  distinct = HasDistinctRefs-delete_where (is_purgeable cutoff) t.holds c.distinct;
  owned =
      All-mono (IsOwned t.holds) _ t.inventory
        (λ r. IsOwned-keep t.holds _ r λ g x _ e active.
          find_where-delete_where (has_ref g) (is_purgeable cutoff) t.holds x e
            (active-spared cutoff x active))
        c.owned;
}

-- A hold whose ref is not in the batch is not deleted with it.
not_in_batch :
    (refs : List Text) (g : Text) (o : Option Text) (x : HoldRow)
    → ref_in refs o ≡ false
    → o ≡ some g
    → has_ref g x ≡ true
    → (any (text_eq x.hold_ref) refs && is_active x) ≡ false
unfolding ref_in
not_in_batch refs g none x miss e h = cc
not_in_batch refs g (some f) x miss e h =
    ground (arith, ap (λ s. any (text_eq s) refs) (has_ref-eq g x h))

reaped-IsConsistent :
    (rows : List HoldRow) (t : Tables) → IsConsistent t → IsConsistent (reaped_tables rows t)
unfolding unmark_expired delete_expired
reaped-IsConsistent rows t c = record {
  distinct = HasDistinctRefs-delete_where in_batch t.holds c.distinct;
  owned =
      All-update_where (IsOwned t.holds) (IsOwned (delete_where in_batch t.holds))
        (λ r. ref_in (refs_of rows) r.hold_ref) (λ r. record r { hold_ref = none }) (λ r e h. tt)
        (λ r miss. IsOwned-keep t.holds _ r λ g x carried e active.
          find_where-delete_where (has_ref g) in_batch t.holds x e (
            not_in_batch (refs_of rows) g r.hold_ref x miss carried
              (find_where_sound (has_ref g) t.holds x e)))
        t.inventory c.owned;
}
  where
    in_batch : HoldRow → Bool
    in_batch h = any (text_eq h.hold_ref) (refs_of rows) && is_active h

purged-IsConsistent :
    (env : Env) (retention_days : ℤ) (t : Tables)
    → IsConsistent t
    → IsConsistent (purged_tables env retention_days t)
purged-IsConsistent env retention_days t c = elim (Bool-cases (purge_enabled retention_days)) [
  | inl e ↦ rw e (purge-IsConsistent (env.app_now -ℤ days retention_days) t c)
  | inr e ↦ rw e c
]

-- Whatever the reaper's result, it keeps the tables consistent.
pub Reaps-IsConsistent :
    (env : Env) (retention_days : ℤ) (t t' : Tables) (r : Result SqlxError (List HoldRow))
    → Reaps env retention_days t t' r
    → IsConsistent t
    → IsConsistent t'
Reaps-IsConsistent env retention_days t t' (ok rows) (_, e) c =
    rw e (reaped-IsConsistent rows _ (purged-IsConsistent env retention_days t c))
Reaps-IsConsistent env retention_days t t' (err _) (inl e) c = rw e c
Reaps-IsConsistent env retention_days t t' (err _) (inr e) c =
    rw e (purged-IsConsistent env retention_days t c)

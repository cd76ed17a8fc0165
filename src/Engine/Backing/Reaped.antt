-- ===== src/Engine/Backing/Reaped.antt =====
-- The reaper keeps every remaining hold backed.
use transity_terminal_resv_c.Common.{
  ℤ, ◌≡◌, ◌≢◌, true, false, ◌&&◌, Text, text_eq, List, Option, none, some, arith, any, All-mono,
  Result, ok, err, inl, inr, ◌-ℤ◌, Bool-cases, ap,
}
use transity_terminal_resv_c.Engine.Types.{Instant, SqlxError, days}
use transity_terminal_resv_c.Engine.Database.{HoldRow, Tables, Env}
use transity_terminal_resv_c.Engine.Database.Sql.Laws.{All-delete_where}
use transity_terminal_resv_c.Engine.Database.Where.{is_active}
use transity_terminal_resv_c.Engine.Reaper.{
  purge_enabled, is_purgeable, purge_confirmed, ref_in, unmark_expired, delete_expired,
}
use transity_terminal_resv_c.Engine.Reaper.Outcome.{purged_tables, reaped_tables, refs_of, Reaps}
use transity_terminal_resv_c.Engine.Backing.{
  Backs, Carries, IsBacked, Carries-update_where, covered_same_seat,
}

purge-IsBacked : (cutoff : Instant) (t : Tables) → IsBacked t → IsBacked (purge_confirmed cutoff t)
unfolding purge_confirmed
purge-IsBacked cutoff t b =
    All-delete_where (Backs t.inventory) (Backs t.inventory) (is_purgeable cutoff) (λ h _ k. k)
      t.holds b

not_reaped :
    (refs : List Text) (h : HoldRow) (o : Option Text)
    → (any (text_eq h.hold_ref) refs && is_active h) ≡ false
    → is_active h ≡ true
    → ref_in refs o ≡ true
    → o ≢ some h.hold_ref
unfolding ref_in
not_reaped refs h none spared active e same = cc
not_reaped refs h (some g) spared active e same = ground (arith, ap (λ o. ref_in refs o) same)

reaped-IsBacked : (rows : List HoldRow) (t : Tables) → IsBacked t → IsBacked (reaped_tables rows t)
unfolding unmark_expired delete_expired
reaped-IsBacked rows t b =
    All-delete_where (Backs t.inventory) (Backs (reaped_tables rows t).inventory)
      (λ h. any (text_eq h.hold_ref) (refs_of rows) && is_active h)
      (λ h spared backs active.
        Carries-update_where h (λ r. ref_in (refs_of rows) r.hold_ref) _
          (λ r. covered_same_seat h r r.booked none) t.inventory
          (All-mono (Carries h) _ t.inventory
            (λ r c. (c, not_reaped (refs_of rows) h r.hold_ref spared active)) (backs active)))
      t.holds b

purged-IsBacked :
    (env : Env) (retention_days : ℤ) (t : Tables)
    → IsBacked t
    → IsBacked (purged_tables env retention_days t)
purged-IsBacked env retention_days t b = elim (Bool-cases (purge_enabled retention_days)) [
  | inl e ↦ rw e (purge-IsBacked (env.app_now -ℤ days retention_days) t b)
  | inr e ↦ rw e b
]

-- Whatever the reaper's result, the holds that remain are backed.
pub Reaps-IsBacked :
    (env : Env) (retention_days : ℤ) (t t' : Tables) (r : Result SqlxError (List HoldRow))
    → Reaps env retention_days t t' r
    → IsBacked t
    → IsBacked t'
Reaps-IsBacked env retention_days t t' (ok rows) (_, e) b =
    rw e (reaped-IsBacked rows _ (purged-IsBacked env retention_days t b))
Reaps-IsBacked env retention_days t t' (err _) (inl e) b = rw e b
Reaps-IsBacked env retention_days t t' (err _) (inr e) b =
    rw e (purged-IsBacked env retention_days t b)

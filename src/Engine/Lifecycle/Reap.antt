-- ===== src/Engine/Lifecycle/Reap.antt =====
-- Which holds a call of `expire_holds` takes away, and which it leaves.
use transity_terminal_resv_c.Common.{
  ℤ, ◌≤◌, ◌≡◌, ap, ◌∙◌, false, Text, List, some, any, length, arith, ok, err, Result, inl, inr,
  Bool-cases, ◌-ℤ◌, text_eq,
}
use transity_terminal_resv_c.Engine.Types.{SqlxError, days}
use transity_terminal_resv_c.Engine.Events.{Publisher}
use transity_terminal_resv_c.Engine.Database.{HoldRow, Tables, Call, Env, World, unlocked}
use transity_terminal_resv_c.Engine.Database.Sql.{find_where, select_where}
use transity_terminal_resv_c.Engine.Database.Sql.Laws.{find_where_sound}
use transity_terminal_resv_c.Engine.Database.Sql.Find.{find_where-delete_where}
use transity_terminal_resv_c.Engine.Database.Where.{has_ref}
use transity_terminal_resv_c.Engine.Reaper.{
  batch_limit, purge_enabled, is_purgeable, purge_confirmed, is_expired, expired_rows,
  unmark_expired, delete_expired, run_reaper, expire_holds,
}
use transity_terminal_resv_c.Engine.Reaper.Outcome.{
  purged_tables, reaped_tables, refs_of, Reaps, run_reaper_cases, expire_holds_quiet,
}
use transity_terminal_resv_c.Engine.Reaper.Expiry.{
  eligible, in_batch, live_not_in_batch, expired_in_batch, expired_rows_all,
}
use transity_terminal_resv_c.Engine.Invariant.{HasDistinctRefs, IsConsistent}
use transity_terminal_resv_c.Engine.Invariant.Keep.{HasDistinctRefs-delete_where, has_ref-eq}
use transity_terminal_resv_c.Engine.System.Committed.{with_lock, expire_holds_db-committed}

module _ (env : Env) (retention_days : ℤ) where
  -- A hold that a run leaves alone: unconsumed and not expired, or consumed and not due for purging.
  pub record IsSpared (h : HoldRow) : Type 0 where
    pub unexpired : is_expired env.db_now h ≡ false
    pub unpurged : is_purgeable (env.app_now -ℤ days retention_days) h ≡ false

  purged_keeps :
      (t : Tables) (hold_ref : Text) (x : HoldRow)
      → find_where (has_ref hold_ref) t.holds ≡ some x
      → IsSpared x
      → find_where (has_ref hold_ref) (purged_tables env retention_days t).holds ≡ some x
  unfolding purge_confirmed
  purged_keeps t hold_ref x e k = elim (Bool-cases (purge_enabled retention_days)) [
    | inl on ↦ rw on (find_where-delete_where (has_ref hold_ref) _ t.holds x e k.unpurged)
    | inr off ↦ rw off e
  ]

  purged_distinct :
      (t : Tables)
      → HasDistinctRefs t.holds
      → HasDistinctRefs (purged_tables env retention_days t).holds
  unfolding purge_confirmed
  purged_distinct t d = elim (Bool-cases (purge_enabled retention_days)) [
    | inl on ↦ rw on (HasDistinctRefs-delete_where _ t.holds d)
    | inr off ↦ rw off d
  ]

  reaped_keeps :
      (t : Tables) (hold_ref : Text) (x : HoldRow)
      → HasDistinctRefs t.holds
      → find_where (has_ref hold_ref) t.holds ≡ some x
      → is_expired env.db_now x ≡ false
      → find_where (has_ref hold_ref) (reaped_tables (expired_rows env t) t).holds ≡ some x
  unfolding unmark_expired delete_expired
  reaped_keeps t hold_ref x d e live =
      let named : x.hold_ref ≡ hold_ref =
        has_ref-eq hold_ref x (find_where_sound (has_ref hold_ref) t.holds x e) in
      find_where-delete_where (has_ref hold_ref) (in_batch env (expired_rows env t)) t.holds x e (
        ground (
          arith,
          ap (λ s. any (text_eq s) (refs_of (expired_rows env t))) named,
          live_not_in_batch env t hold_ref x d e live,
        ))

  Reaps-keeps :
      (t t' : Tables) (r : Result SqlxError (List HoldRow)) (hold_ref : Text) (x : HoldRow)
      → Reaps env retention_days t t' r
      → HasDistinctRefs t.holds
      → find_where (has_ref hold_ref) t.holds ≡ some x
      → IsSpared x
      → find_where (has_ref hold_ref) t'.holds ≡ some x
  Reaps-keeps t t' (ok rows) hold_ref x (same, e) d found k =
      rw (e, same)
        (reaped_keeps (purged_tables env retention_days t) hold_ref x (purged_distinct t d)
          (purged_keeps t hold_ref x found k) k.unexpired)
  Reaps-keeps t t' (err _) hold_ref x (inl e) d found k = rw e found
  Reaps-keeps t t' (err _) hold_ref x (inr e) d found k = rw e (purged_keeps t hold_ref x found k)

  module _ {S : Type 0} (publisher : Publisher S) (w : World S) where
    -- In consistent tables a run of the reaper, whatever fails in it, keeps every hold that is
    -- neither an expired unconsumed one nor a consumed one past its retention.
    pub expire_holds_keeps :
        (hold_ref : Text) (x : HoldRow)
        → IsConsistent w.database.committed
        → find_where (has_ref hold_ref) w.database.committed.holds ≡ some x
        → IsSpared x
        → find_where
            (has_ref hold_ref)
            (expire_holds env publisher retention_days w).1.database.committed.holds
          ≡ some x
    unfolding expire_holds
    expire_holds_keeps hold_ref x c found k =
        elim (expire_holds_db-committed env retention_days w.database) [
          | inl e ↦ rw e found
          | inr e ↦ rw e (
              Reaps-keeps w.database.committed _
                (run_reaper env retention_days (with_lock env w.database)).0 hold_ref x
                (run_reaper_cases env retention_days (with_lock env w.database)) c.distinct found k)
        ]

    -- With no failing call, the lock free, no row locked by others and at most 500 unconsumed holds
    -- expired, a call leaves no expired unconsumed hold, and reports how many there were.
    pub expire_holds_clears :
        ((c : Call) → env.fails c ≡ false)
        → w.database.reaper_lock ≡ unlocked
        → ((s : Text) → env.row_locked s ≡ false)
        → length (
            select_where
              (eligible env)
              (purged_tables env retention_days w.database.committed).holds)
          ≤ batch_limit
        → let (r, w') = expire_holds env publisher retention_days w in
          let t = purged_tables env retention_days w.database.committed in
          (r ≡ ok (record { released_count = length (select_where (eligible env) t.holds) }))
          × (any (is_expired env.db_now) w'.database.committed.holds ≡ false)
    expire_holds_clears quiet free open_rows fits =
        let t = purged_tables env retention_days w.database.committed in
        let (reply, changed, _) = expire_holds_quiet env retention_days quiet publisher w free in
        (
          reply
              ∙ ap (λ rows. ok (record { released_count = length rows }))
                  (expired_rows_all env t fits),
          ap (λ (x : Tables). any (is_expired env.db_now) x.holds) changed
              ∙ expired_in_batch env t fits open_rows,
        )

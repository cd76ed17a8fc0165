-- ===== src/Engine/Release/Outcome.antt =====
-- What the transaction of `release_hold_by_ref` leaves behind, on every branch.
use transity_terminal_resv_c.Common.{
  ◌≡◌, ap, true, false, Option, Result, Text, none, some, arith, ok, err,
}
use transity_terminal_resv_c.Engine.Types.{SqlxError}
use transity_terminal_resv_c.Engine.Events.{Publisher, emit_release_pair}
use transity_terminal_resv_c.Engine.Database.{
  HoldRow, Tables, Database, Env, World, begin, select_hold,
}
use transity_terminal_resv_c.Engine.Release.{
  active_hold, unmark_inventory, delete_hold_row, release_txn, finish_release, release_hold_by_ref,
}

-- The tables after a release.
abbrev pub released_tables : Text → Tables → Tables
released_tables hold_ref t = delete_hold_row hold_ref (unmark_inventory hold_ref t)

-- The committed tables after the transaction, by its result.
abbrev pub Releases : Text → Tables → Tables → Result SqlxError (Option HoldRow) → Type 0
Releases hold_ref t t' (ok (some row)) =
    (active_hold hold_ref t ≡ some row) × (t' ≡ released_tables hold_ref t)
Releases hold_ref t t' (ok none) = t' ≡ t
Releases hold_ref t t' (err _) = t' ≡ t

pub release_txn_cases :
    (env : Env) (hold_ref : Text) (d : Database)
    → let (r, d') = release_txn env hold_ref d in Releases hold_ref d.committed d'.committed r
unfolding release_txn
release_txn_cases env hold_ref d = ground arith

module _ {S : Type 0} (publisher : Publisher S) (env : Env) (hold_ref : Text) (w : World S) where
  -- After the commit of a release: the reply, and the events of the released row.
  pub release_reply :
      (row : HoldRow)
      → (release_txn env hold_ref w.database).0 ≡ ok (some row)
      → let (r, w') = release_hold_by_ref env publisher hold_ref w in
        (r ≡ ok (record { success = true }))
        × (w'.bus
            ≡ (emit_release_pair publisher row.trip_id row.seat_no row.leg_indexes env.event_now
                w.bus).1)
  unfolding release_hold_by_ref finish_release
  release_reply row e = (
    ap (λ x. (finish_release env publisher x w.bus).0) e,
    ap (λ x. (finish_release env publisher x w.bus).1) e,
  )

  -- Without an active hold nothing is changed or published.
  pub release_miss :
      env.fails begin ≡ false
      → env.fails select_hold ≡ false
      → active_hold hold_ref w.database.committed ≡ none
      → let (r, w') = release_hold_by_ref env publisher hold_ref w in
        (r ≡ ok (record { success = false }))
        × (w'.database.committed ≡ w.database.committed)
        × (w'.bus ≡ w.bus)
  unfolding release_hold_by_ref finish_release release_txn
  release_miss begun selected missing = ground arith

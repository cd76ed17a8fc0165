-- ===== src/Loadtest/Ops.antt =====
-- Operations on the seats of the load test, one after the other.
use transity_terminal_resv_c.Common.{◌≡◌, true, Text, Option, none, some, inl, inr, ok, err, Result}
use transity_terminal_resv_c.Engine.Types.{Uuid, SqlxError, ConfirmResult}
use transity_terminal_resv_c.Engine.Events.{Publisher}
use transity_terminal_resv_c.Engine.Database.{HoldRow, Tables, Env, World}
use transity_terminal_resv_c.Engine.Hold.Outcome.{atomic_hold_cases}
use transity_terminal_resv_c.Engine.Confirm.{confirm_txn, confirm_booking}
use transity_terminal_resv_c.Engine.Confirm.Outcome.{Confirms, confirm_txn_cases}
use transity_terminal_resv_c.Engine.Cancel.{cancel_booking_seats}
use transity_terminal_resv_c.Engine.Cancel.Outcome.{cancel_txn_cases}
use transity_terminal_resv_c.Engine.Release.{release_txn, release_hold_by_ref}
use transity_terminal_resv_c.Engine.Release.Outcome.{Releases, release_txn_cases}
use transity_terminal_resv_c.Engine.Invariant.{IsConsistent}
use transity_terminal_resv_c.Engine.System.{
  Operation, hold, confirm, cancel, release, expire, perform,
}
use transity_terminal_resv_c.Loadtest.Seed.{is_seeded}
use transity_terminal_resv_c.Engine.System.Committed.{perform-Commits}
use transity_terminal_resv_c.Engine.System.Consistency.{Commits-IsConsistent}
use transity_terminal_resv_c.Loadtest.Else.{
  SameElse, SameElse-refl, SameElse-trans, RefIsOurs, hold-SameElse, confirm-SameElse,
  release-SameElse, cancel-SameElse,
}

module _ (trip_id : Uuid) (prefix : Text) where
  -- An operation on a seat of the load test, or on the ref of a hold on one.
  abbrev pub IsOurs : Operation → Tables → Type 0
  IsOurs (hold req _) t = is_seeded trip_id prefix req.trip_id req.seat_no ≡ true
  IsOurs (confirm ref _) t = RefIsOurs trip_id prefix ref t
  IsOurs (cancel trip seat_no _) t = is_seeded trip_id prefix trip seat_no ≡ true
  IsOurs (release ref) t = RefIsOurs trip_id prefix ref t
  IsOurs (expire _) t = ⊥

  SameElse-eq : (t u v : Tables) → v ≡ u → SameElse trip_id prefix t u → SameElse trip_id prefix t v
  SameElse-eq t u v e s = rw e s

  module _ {S : Type 0} (publisher : Publisher S) where
    perform-SameElse :
        (env : Env) (op : Operation) (w : World S)
        → IsOurs op w.database.committed
        → IsConsistent w.database.committed
        → SameElse trip_id prefix w.database.committed
            (perform publisher env op w).database.committed
    unfolding perform confirm_booking cancel_booking_seats release_hold_by_ref
    perform-SameElse env (hold req ttl) w ours c =
        elim (atomic_hold_cases publisher env req ttl w) [
          | inl (_, e) ↦ SameElse-eq _ _ _ e (SameElse-refl trip_id prefix w.database.committed)
          | inr (_, _, e) ↦
              SameElse-eq _ _ _ e
                (hold-SameElse trip_id prefix w.database.committed _ _ _ _ _ _ _ ours)
        ]
    perform-SameElse env (confirm ref booking_id) w ours c =
        go (confirm_txn env ref booking_id w.database).0
          (confirm_txn_cases env ref booking_id w.database)
      where
        t : Tables
        t = w.database.committed

        t' : Tables
        t' = (confirm_txn env ref booking_id w.database).1.committed

        go :
            (r : Result SqlxError (Result ConfirmResult HoldRow))
            → Confirms env ref booking_id t t' r
            → SameElse trip_id prefix t t'
        go (ok (ok row)) (_, e) =
            SameElse-eq t _ t' e (confirm-SameElse trip_id prefix t ref booking_id ours c)
        go (ok (err _)) e = SameElse-eq t t t' e (SameElse-refl trip_id prefix t)
        go (err _) e = SameElse-eq t t t' e (SameElse-refl trip_id prefix t)
    perform-SameElse env (release ref) w ours c =
        go (release_txn env ref w.database).0 (release_txn_cases env ref w.database)
      where
        t : Tables
        t = w.database.committed

        t' : Tables
        t' = (release_txn env ref w.database).1.committed

        go :
            (r : Result SqlxError (Option HoldRow))
            → Releases ref t t' r
            → SameElse trip_id prefix t t'
        go (ok (some row)) (_, e) =
            SameElse-eq t _ t' e (release-SameElse trip_id prefix t ref ours c)
        go (ok none) e = SameElse-eq t t t' e (SameElse-refl trip_id prefix t)
        go (err _) e = SameElse-eq t t t' e (SameElse-refl trip_id prefix t)
    perform-SameElse env (cancel trip seat_no legs) w ours c =
        elim (cancel_txn_cases env trip seat_no legs w.database) [
          | inl (_, e) ↦ SameElse-eq _ _ _ e (SameElse-refl trip_id prefix w.database.committed)
          | inr (_, e) ↦
              SameElse-eq _ _ _ e
                (cancel-SameElse trip_id prefix w.database.committed trip seat_no legs ours)
        ]
    perform-SameElse env (expire _) w ours c = absurd ours

    -- Such operations, one after the other, from the world `w`.
    pub data OurRun (w : World S) : World S → Type 0 where
      before_ops : OurRun w w
      then_op :
          (w' : World S) (env : Env) (op : Operation)
          → OurRun w w'
          → IsOurs op w'.database.committed
          → OurRun w (perform publisher env op w')

    pub OurRun-SameElse :
        (w w' : World S)
        → OurRun w w'
        → IsConsistent w.database.committed
        → IsConsistent w'.database.committed
          × SameElse trip_id prefix w.database.committed w'.database.committed
    OurRun-SameElse w _ before_ops c = (c, SameElse-refl trip_id prefix w.database.committed)
    OurRun-SameElse w _ (then_op w' env op run ours) c =
        let (c', same) = OurRun-SameElse w w' run c in
        (
          Commits-IsConsistent (perform-Commits publisher env op w') c',
          SameElse-trans trip_id prefix w.database.committed w'.database.committed _ same
              (perform-SameElse env op w' ours c'),
        )

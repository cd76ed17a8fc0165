-- ===== src/Engine/System/Served/Perform.antt =====
-- The refinement for the reaper, and for every operation.
use mathlib.Core.List.{append-nil, append_assoc}
use transity_terminal_resv_c.Common.{
  ℤ, ◌≡◌, refl, sym, ◌∙◌, ◌⊎◌, inl, inr, List, [], ◌∷◌, ◌++◌, map, Result, ok, err, Option, none,
  some, arith,
}
use transity_terminal_resv_c.Engine.Types.{SqlxError}
use transity_terminal_resv_c.Engine.Events.{
  ReservationEvent, recording_publisher, publish_best_effort,
}
use transity_terminal_resv_c.Engine.Database.{HoldRow, Tables, Database, Env, World}
use transity_terminal_resv_c.Engine.Reaper.{
  expired_rows, expire_holds_db, publish_released, finish_reaper, expire_holds,
}
use transity_terminal_resv_c.Engine.Reaper.Outcome.{purged_tables, Reaps, run_reaper_cases}
use transity_terminal_resv_c.Engine.System.{
  Operation, hold, confirm, cancel, release, expire, perform,
}
use transity_terminal_resv_c.Engine.System.Committed.{with_lock}
use transity_terminal_resv_c.Engine.System.Served.{
  effect, announced, released_of, Serves, refused, purged_only, served, Serves-eq,
}
use transity_terminal_resv_c.Engine.System.Served.Each.{
  hold-Serves, confirm-Serves, cancel-Serves, release-Serves,
}

-- expire
publish_released-all :
    (env : Env) (hs : List HoldRow) (bus : List ReservationEvent)
    → publish_released env recording_publisher hs bus ≡ bus ++ map (released_of env) hs
unfolding publish_released publish_best_effort
publish_released-all env [] bus = sym (append-nil bus)
publish_released-all env (h ∷ hs) bus =
    publish_released-all env hs (bus ++ released_of env h ∷ [])
    ∙ append_assoc bus (released_of env h ∷ []) (map (released_of env) hs)

-- What a call of `expire_holds` commits, by what it then publishes.
Expires : Env → ℤ → Tables → Tables → Result SqlxError (Option (List HoldRow)) → Type 0
Expires env retention_days t t' (ok (some rows)) = Reaps env retention_days t t' (ok rows)
Expires env retention_days t t' (ok none) = t' ≡ t
Expires env retention_days t t' (err e) = (t' ≡ t) ⊎ (t' ≡ purged_tables env retention_days t)

expire_holds_db_cases :
    (env : Env) (retention_days : ℤ) (d : Database)
    → let (r, d') = expire_holds_db env retention_days d in
      Expires env retention_days d.committed d'.committed r
unfolding expire_holds_db Expires
expire_holds_db_cases env retention_days d =
    ground (arith, run_reaper_cases env retention_days (with_lock env d))

expire-Serves :
    (env : Env) (retention_days : ℤ) (w : World (List ReservationEvent))
    → let w' = perform recording_publisher env (expire retention_days) w in
      Serves env (expire retention_days) w.database.committed w.bus w'.database.committed w'.bus
unfolding perform expire_holds effect announced finish_reaper Expires
expire-Serves env retention_days w =
    go (expire_holds_db env retention_days w.database).0
      (expire_holds_db_cases env retention_days w.database)
  where
    t' : Tables
    t' = (expire_holds_db env retention_days w.database).1.committed

    go :
        (r : Result SqlxError (Option (List HoldRow)))
        → Expires env retention_days w.database.committed t' r
        → Serves env
            (expire retention_days)
            w.database.committed
            w.bus
            t'
            (finish_reaper env recording_publisher r w.bus).1
    go (ok (some rows)) (same, e) =
        rw (e, same)
          (rw
            (publish_released-all env
              (expired_rows env (purged_tables env retention_days w.database.committed)) w.bus)
            served)
    go (ok none) e = Serves-eq e refl refused
    go (err _) (inl e) = Serves-eq e refl refused
    go (err _) (inr e) = Serves-eq e refl (purged_only retention_days refl)

-- Whatever fails, with a publisher that keeps its events, an operation either changes nothing and
-- publishes nothing, or commits its effect and publishes exactly the events that announce it. Only
-- the reaper may do a third thing: commit its purge of old consumed holds and publish nothing.
pub perform-Serves :
    (env : Env) (op : Operation) (w : World (List ReservationEvent))
    → let w' = perform recording_publisher env op w in
      Serves env op w.database.committed w.bus w'.database.committed w'.bus
perform-Serves env (hold req ttl) w = hold-Serves env req ttl w
perform-Serves env (confirm hold_ref booking_id) w = confirm-Serves env hold_ref booking_id w
perform-Serves env (cancel trip_id seat_no legs) w = cancel-Serves env trip_id seat_no legs w
perform-Serves env (release hold_ref) w = release-Serves env hold_ref w
perform-Serves env (expire retention_days) w = expire-Serves env retention_days w

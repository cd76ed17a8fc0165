-- ===== src/Engine/System/Consistency.antt =====
-- The first invariant over histories of operations.
use transity_terminal_resv_c.Common.{List, [], ◌∷◌}
use transity_terminal_resv_c.Engine.Events.{Publisher}
use transity_terminal_resv_c.Engine.Database.{Tables, Env, World}
use transity_terminal_resv_c.Engine.Invariant.{IsConsistent}
use transity_terminal_resv_c.Engine.Invariant.Steps.{
  hold-IsConsistent, confirm-IsConsistent, release-IsConsistent, cancel-IsConsistent,
}
use transity_terminal_resv_c.Engine.Invariant.Reaped.{Reaps-IsConsistent}
use transity_terminal_resv_c.Engine.System.{Operation, perform, perform_all}
use transity_terminal_resv_c.Engine.System.Committed.{
  Commits, unchanged, held, confirmed, freed, released, reaped, perform-Commits,
}

pub Commits-IsConsistent :
    {env : Env} {op : Operation} {t t' : Tables}
    → Commits env op t t'
    → IsConsistent t
    → IsConsistent t'
Commits-IsConsistent unchanged c = c
Commits-IsConsistent {t}
      (held trip_id seat_no legs operator_id ttl_class hold_ref expires_at allowed) c =
    hold-IsConsistent trip_id seat_no legs operator_id ttl_class hold_ref expires_at t allowed c
Commits-IsConsistent {t} (confirmed hold_ref booking_id row _) c =
    confirm-IsConsistent hold_ref booking_id t c
Commits-IsConsistent {t} (freed trip_id seat_no legs _) c =
    cancel-IsConsistent trip_id seat_no legs t c
Commits-IsConsistent {t} (released hold_ref row _) c = release-IsConsistent hold_ref t c
Commits-IsConsistent {env} {t} (reaped retention_days r t' h) c =
    Reaps-IsConsistent env retention_days t t' r h c

-- From consistent tables, any history of holds, confirmations, cancellations, releases and reaper
-- runs, whatever database calls and publishes fail, leaves consistent tables: hold refs are distinct,
-- and a row that carries a ref is unbooked and covered by the unconsumed hold of that ref.
pub perform_all-IsConsistent :
    {S : Type 0} (publisher : Publisher S) (ops : List (Env × Operation)) (w : World S)
    → IsConsistent w.database.committed
    → IsConsistent (perform_all publisher ops w).database.committed
unfolding perform_all
perform_all-IsConsistent publisher [] w c = c
perform_all-IsConsistent publisher ((env, op) ∷ ops) w c =
    perform_all-IsConsistent publisher ops (perform publisher env op w)
      (Commits-IsConsistent (perform-Commits publisher env op w) c)

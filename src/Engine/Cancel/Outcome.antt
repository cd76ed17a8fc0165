-- ===== src/Engine/Cancel/Outcome.antt =====
-- What the transaction of `cancel_booking_seats` leaves behind, on every branch.
use transity_terminal_resv_c.Common.{ℤ, ◌≡◌, ◌≢◌, ◌⊎◌, Text, List, arith, ok}
use transity_terminal_resv_c.Engine.Types.{Uuid}
use transity_terminal_resv_c.Engine.Database.{Database, Env}
use transity_terminal_resv_c.Engine.Cancel.{free_seat, cancel_txn}

pub cancel_txn_cases :
    (env : Env) (trip_id : Uuid) (seat_no : Text) (leg_indexes : List ℤ) (d : Database)
    → let (r, d') = cancel_txn env trip_id seat_no leg_indexes d in
      ((r ≢ ok tt) × (d'.committed ≡ d.committed))
      ⊎ ((r ≡ ok tt) × (d'.committed ≡ free_seat trip_id seat_no leg_indexes d.committed))
unfolding cancel_txn
cancel_txn_cases env trip_id seat_no leg_indexes d = ground arith

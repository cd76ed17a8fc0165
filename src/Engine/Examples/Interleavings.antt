-- ===== src/Engine/Examples/Interleavings.antt =====
-- Two holds on the two legs of a seat that overlap in time, and the confirmation of the first while
-- the second is still open.
use transity_terminal_resv_c.Common.{
  true, refl, pos, ℤ, ◌+ℤ◌, ◌*ℤ◌, false, codes, text_eq, List, [], ◌∷◌, none, All,
}
use transity_terminal_resv_c.Engine.Types.{SeatHoldRequest, seconds}
use transity_terminal_resv_c.Engine.Events.{recording_publisher}
use transity_terminal_resv_c.Engine.Database.{Tables}
use transity_terminal_resv_c.Engine.Database.Sql.{select_where, find_where, order_by}
use transity_terminal_resv_c.Engine.Database.Where.{at_seat, has_ref, is_live}
use transity_terminal_resv_c.Engine.Hold.{inventory_rows, is_taken, mark_inventory, new_hold}
use transity_terminal_resv_c.Engine.Confirm.{live_hold}
use transity_terminal_resv_c.Engine.Invariant.{IsConsistent}
use transity_terminal_resv_c.Engine.System.{hold, confirm}
use transity_terminal_resv_c.Engine.Interleaved.{
  Txn, Shared, HoldChecked, IsChecked, effect, locks, commits, Reachable, started, then_step,
  SerialRun,
}
use transity_terminal_resv_c.Engine.Interleaved.Serial.{Reachable-SerialRun, Reachable-IsConsistent}
use transity_terminal_resv_c.Engine.Database.{Env}
use transity_terminal_resv_c.Engine.Reaper.{expire_holds}
use transity_terminal_resv_c.Engine.Interleaved.{Untouched}
use transity_terminal_resv_c.Engine.Interleaved.Skip.{expire_holds-Untouched}
use transity_terminal_resv_c.Engine.Examples.{
  held_world, held_world-IsConsistent, request, env_at, tables_of, open_world-IsConsistent,
}

abbrev on_leg : ℤ → SeatHoldRequest
on_leg leg = record request { leg_indexes = leg ∷ [] }

abbrev on_one : Txn
on_one = (env_at (pos 0) 7, hold (on_leg (pos 1)) (pos 300))

abbrev on_two : Txn
on_two = (env_at (pos 0) 8, hold (on_leg (pos 2)) (pos 300))

abbrev confirming : Txn
confirming = (env_at (pos 5) 9, confirm (7 ∷ []) (codes "B"))

abbrev start : Tables
start = tables_of false none []

abbrev with : Tables → List Txn → List Txn → Shared
with t holders log = record { tables = t; holders = holders; log = log }

-- The hold that locked its row first has committed, and its confirmation has the lock.
abbrev overlapping : Shared
overlapping = with (effect on_one start) (confirming ∷ on_two ∷ []) (on_one ∷ [])

on_one-HoldChecked : HoldChecked start (on_leg (pos 1))
unfolding inventory_rows select_where order_by at_seat text_eq is_taken
on_one-HoldChecked = record { complete = refl; untaken = refl }

on_two-HoldChecked : HoldChecked start (on_leg (pos 2))
unfolding inventory_rows select_where order_by at_seat text_eq is_taken
on_two-HoldChecked = record { complete = refl; untaken = refl }

confirming-IsChecked : IsChecked (effect on_one start) confirming
unfolding live_hold mark_inventory new_hold find_where has_ref text_eq is_live ◌+ℤ◌ ◌*ℤ◌ seconds
confirming-IsChecked = (_, record { live = refl; unconsumed = refl })

overlapping-Reachable : Reachable recording_publisher start overlapping
unfolding find_where text_eq
overlapping-Reachable =
    then_step (with (effect on_one start) (on_two ∷ []) (on_one ∷ [])) overlapping
      (then_step (with start (on_two ∷ on_one ∷ []) [])
        (with (effect on_one start) (on_two ∷ []) (on_one ∷ []))
        (then_step (with start (on_one ∷ []) []) (with start (on_two ∷ on_one ∷ []) [])
          (then_step (with start [] []) (with start (on_one ∷ []) []) started
            (locks start [] [] on_one tt on_one-HoldChecked))
          (locks start (on_one ∷ []) [] on_two
            ((((((λ e. cc), ((λ e. refl), tt)), ((λ e. refl), ((λ e. cc), tt)))), tt), tt)
            on_two-HoldChecked))
        (commits start (on_two ∷ []) [] [] on_one (λ c. refl) refl))
      (locks (effect on_one start) (on_two ∷ []) (on_one ∷ []) confirming ((tt, tt), tt)
        confirming-IsChecked)

Reachable-SerialRun_example : SerialRun recording_publisher start (on_one ∷ []) overlapping.tables
Reachable-SerialRun_example =
    Reachable-SerialRun recording_publisher start overlapping [] overlapping-Reachable

Reachable-IsConsistent_example :
    IsConsistent overlapping.tables × All (IsChecked overlapping.tables) overlapping.holders
Reachable-IsConsistent_example =
    Reachable-IsConsistent recording_publisher start overlapping [] overlapping-Reachable
      open_world-IsConsistent

-- The reaper runs long after the expiry, next to the confirmation of hold 7.
abbrev late : Env
late = record (env_at (pos 900_000_000) 4) { row_locked = λ s. true }

held-IsChecked : IsChecked held_world.database.committed confirming
unfolding live_hold find_where has_ref text_eq is_live
held-IsChecked = (_, record { live = refl; unconsumed = refl })

expire_holds-Untouched_example :
    let t = held_world.database.committed in
    let t' = (expire_holds late recording_publisher (pos 30) held_world).1.database.committed in
    All (Untouched t t') (confirming ∷ [])
expire_holds-Untouched_example =
    expire_holds-Untouched recording_publisher late (pos 30) held_world (confirming ∷ [])
      held_world-IsConsistent (held-IsChecked, tt) (refl, tt)

-- ===== src/Engine/Examples/Histories.antt =====
-- Runs of several operations.
use transity_terminal_resv_c.Common.{◌≡◌, refl, pos, ◌≤◌, codes, text_eq, List, [], ◌∷◌, none}
use transity_terminal_resv_c.Engine.Events.{recording_publisher}
use transity_terminal_resv_c.Engine.Database.{Env}
use transity_terminal_resv_c.Engine.Database.Sql.{find_where}
use transity_terminal_resv_c.Engine.Database.Where.{has_ref, is_live}
use transity_terminal_resv_c.Engine.Hold.Race.{winners, winners_le_one, at_leg}
use transity_terminal_resv_c.Engine.Confirm.{live_hold, confirm_txn, confirm_booking}
use transity_terminal_resv_c.Engine.Invariant.{IsConsistent}
use transity_terminal_resv_c.Engine.Backing.{IsBacked}
use transity_terminal_resv_c.Engine.System.{
  Operation, hold, confirm, release, expire, perform, perform_all,
}
use transity_terminal_resv_c.Engine.System.Consistency.{perform_all-IsConsistent}
use transity_terminal_resv_c.Engine.System.Backed.{
  perform_all-IsBacked, IsBooked, confirm_booking-IsBooked,
}
use transity_terminal_resv_c.Engine.System.Served.{Serves}
use transity_terminal_resv_c.Engine.System.Served.Perform.{perform-Serves}
use transity_terminal_resv_c.Engine.System.Keys.{seat_keys, seat_keys-perform_all}
use transity_terminal_resv_c.Engine.Examples.{
  env_at, request, hold_7, open_world, held_world, open_world-IsConsistent, held_world-IsBacked,
}

-- A hold, a second hold that is refused, a confirmation, and a run of the reaper.
abbrev history : List (Env × Operation)
history =
    (env_at (pos 0) 7, hold request (pos 300))
    ∷ (env_at (pos 1) 8, hold request (pos 300))
    ∷ (env_at (pos 2) 9, confirm (7 ∷ []) (codes "B"))
    ∷ (env_at (pos 3) 9, expire (pos 30))
    ∷ []

perform_all-IsConsistent_example :
    IsConsistent (perform_all recording_publisher history open_world).database.committed
perform_all-IsConsistent_example =
    perform_all-IsConsistent recording_publisher history open_world open_world-IsConsistent

winners_le_one_example :
    winners recording_publisher
      ((env_at (pos 0) 7, request, pos 300) ∷ (env_at (pos 0) 8, request, pos 300) ∷ [])
      open_world
    ≤ 1
unfolding at_leg text_eq
winners_le_one_example =
    winners_le_one 1 (codes "1A") (pos 1) recording_publisher
      ((env_at (pos 0) 7, request, pos 300) ∷ (env_at (pos 0) 8, request, pos 300) ∷ []) open_world
      (
        record { same_trip = refl; same_seat = refl; has_leg = refl },
        (record { same_trip = refl; same_seat = refl; has_leg = refl }, tt),
      )
      refl

perform_all-IsBacked_example :
    IsBacked (perform_all recording_publisher history open_world).database.committed
perform_all-IsBacked_example =
    perform_all-IsBacked recording_publisher history open_world (tt, (tt, (tt, (tt, tt)))) tt

confirm_booking-IsBooked_example :
    IsBooked
      (hold_7 none)
      (confirm_booking
        (env_at (pos 5) 9)
        recording_publisher
        (7 ∷ [])
        (codes "B")
        held_world).1.database.committed
unfolding live_hold find_where has_ref text_eq is_live confirm_booking confirm_txn
confirm_booking-IsBooked_example =
    confirm_booking-IsBooked recording_publisher (env_at (pos 5) 9) (7 ∷ []) (codes "B")
      (hold_7 none) held_world held_world-IsBacked refl refl

perform-Serves_example :
    let w' = perform recording_publisher (env_at (pos 5) 9) (release (7 ∷ [])) held_world in
    Serves
      (env_at (pos 5) 9)
      (release (7 ∷ []))
      held_world.database.committed
      []
      w'.database.committed
      w'.bus
perform-Serves_example = perform-Serves (env_at (pos 5) 9) (release (7 ∷ [])) held_world

seat_keys-perform_all_example :
    seat_keys (perform_all recording_publisher history open_world).database.committed
    ≡ seat_keys open_world.database.committed
seat_keys-perform_all_example = seat_keys-perform_all recording_publisher history open_world

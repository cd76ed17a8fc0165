-- ===== src/Engine/Examples/Replies.antt =====
-- Single calls.
use transity_terminal_resv_c.Common.{
  ◌≡◌, refl, pos, ◌+ℤ◌, ◌⊎◌, Bool, true, false, Text, text_eq, [], ◌∷◌, map, none, some, ok,
}
use transity_terminal_resv_c.Engine.Types.{seconds, InventorySnapshot}
use transity_terminal_resv_c.Engine.Events.{recording_publisher}
use transity_terminal_resv_c.Engine.Database.{unlocked}
use transity_terminal_resv_c.Engine.Database.Sql.{select_where}
use transity_terminal_resv_c.Engine.Hold.{atomic_hold}
use transity_terminal_resv_c.Engine.Hold.Outcome.{
  succeeded, Allowed, held_by_request, atomic_hold_cases,
}
use transity_terminal_resv_c.Engine.Reaper.{expire_holds}
use transity_terminal_resv_c.Engine.Examples.{
  env_at, leg_row, request, hold_7, open_world, held_world, held_world-IsConsistent,
}
use transity_terminal_resv_c.Common.{not, text_ltb}
use transity_terminal_resv_c.Engine.Reaper.Lock.{expire_holds-reaper_lock}
use transity_terminal_resv_c.Engine.Snapshot.{
  join_row, leg_state, snapshot_rows, get_inventory_snapshot,
}
use transity_terminal_resv_c.Engine.Snapshot.Laws.{
  legs_of, IsOrdered, Shows, get_inventory_snapshot-legs_of, leg_state-join_row,
}

-- A collation: that of the code points.
abbrev text_leb : Text → Text → Bool
text_leb s t = not (text_ltb t s)

atomic_hold_cases_example :
    let (r, w') = atomic_hold (env_at (pos 0) 7) recording_publisher request (pos 300) open_world in
    ((succeeded r ≡ false) × (w'.database.committed ≡ open_world.database.committed))
    ⊎ ((succeeded r ≡ true)
        × Allowed recording_publisher
            (env_at (pos 0) 7)
            request
            (pos 0 +ℤ seconds (pos 300))
            open_world.database.committed
        × (w'.database.committed
            ≡ held_by_request recording_publisher
                (env_at (pos 0) 7)
                request
                (pos 0 +ℤ seconds (pos 300))
                open_world.database.committed))
atomic_hold_cases_example =
    atomic_hold_cases recording_publisher (env_at (pos 0) 7) request (pos 300) open_world

expire_holds-reaper_lock_example :
    (expire_holds
      (env_at (pos 300_000_000) 9)
      recording_publisher
      (pos 30)
      held_world).1.database.reaper_lock
    ≡ unlocked
expire_holds-reaper_lock_example =
    expire_holds-reaper_lock recording_publisher (env_at (pos 300_000_000) 9) (pos 30) held_world tt
      refl

get_inventory_snapshot-legs_of_example :
    (snap : InventorySnapshot) × (get_inventory_snapshot
        (env_at (pos 5) 9)
        text_leb
        1
        held_world.database
      ≡ (ok snap, held_world.database))
    × IsOrdered snap.seats
    × ((seat_no : Text)
        → legs_of seat_no snap.seats
          ≡ map leg_state (
              select_where
                (λ r. text_eq r.seat_no seat_no)
                (snapshot_rows text_leb 1 held_world.database.committed)))
get_inventory_snapshot-legs_of_example =
    get_inventory_snapshot-legs_of (env_at (pos 5) 9) text_leb 1 held_world.database refl

leg_state-join_row_example :
    Shows
      (hold_7 none ∷ [])
      (leg_row (pos 1) false (some (7 ∷ [])))
      (leg_state (join_row (hold_7 none ∷ []) (leg_row (pos 1) false (some (7 ∷ [])))))
      (some (7 ∷ []))
leg_state-join_row_example =
    leg_state-join_row (hold_7 none ∷ []) (leg_row (pos 1) false (some (7 ∷ [])))
      held_world-IsConsistent.owned.0

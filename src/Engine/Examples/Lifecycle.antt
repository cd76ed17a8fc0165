-- ===== src/Engine/Examples/Lifecycle.antt =====
-- A hold through release, confirmation, cancellation and expiry.
use transity_terminal_resv_c.Common.{
  ◌≡◌, refl, pos, true, false, codes, text_eq, [], ◌∷◌, none, some, All, any, length, ok, arith,
  if◌then◌else◌,
}
use transity_terminal_resv_c.Engine.Types.{
  Uuid, seconds, short, long, SeatHoldRequest, InventorySnapshot, Instant,
}
use transity_terminal_resv_c.Engine.Events.{recording_publisher}
use transity_terminal_resv_c.Engine.Database.{
  InventoryRow, HoldRow, Tables, Database, AdvisoryLock, unlocked, locked_by, Env, World,
}
use transity_terminal_resv_c.Engine.Database.Sql.{select_where, find_where, delete_where}
use transity_terminal_resv_c.Engine.Database.Where.{has_ref, at_seat, is_active, is_live}
use transity_terminal_resv_c.Engine.Hold.{atomic_hold, run_hold_txn, is_taken}
use transity_terminal_resv_c.Engine.Confirm.{refused, confirm_booking}
use transity_terminal_resv_c.Engine.Confirm.Outcome.{confirmed_reply}
use transity_terminal_resv_c.Engine.Cancel.{cancel_booking_seats}
use transity_terminal_resv_c.Engine.Release.{release_hold_by_ref}
use transity_terminal_resv_c.Engine.Reaper.{
  expire_holds, is_expired, is_purgeable, purge_enabled, purge_confirmed,
}
use transity_terminal_resv_c.Engine.Backing.{covered}
use transity_terminal_resv_c.Engine.Examples.{
  env_at, request, hold_7, open_world, held_world, sold_world, open_world-IsConsistent,
  held_world-IsConsistent, sold_world-IsConsistent,
}
use transity_terminal_resv_c.Engine.Reaper.Outcome.{purged_tables}
use transity_terminal_resv_c.Engine.Reaper.Expiry.{eligible}
use transity_terminal_resv_c.Engine.Lifecycle.HoldRelease.{release_hold_by_ref-atomic_hold}
use transity_terminal_resv_c.Engine.Lifecycle.Consumed.{consumed_is_final}
use transity_terminal_resv_c.Engine.Lifecycle.CancelConfirm.{confirm_booking-cancel_booking_seats}
use transity_terminal_resv_c.Engine.Lifecycle.Reap.{expire_holds_keeps, expire_holds_clears}

release_hold_by_ref-atomic_hold_example :
    let w1 = (atomic_hold (env_at (pos 0) 7) recording_publisher request (pos 300) open_world).1 in
    let (r, w2) = release_hold_by_ref (env_at (pos 5) 9) recording_publisher (7 ∷ []) w1 in
    (r ≡ ok (record { success = true })) × (w2.database.committed ≡ open_world.database.committed)
unfolding atomic_hold run_hold_txn transity_terminal_resv_c.Engine.Hold.inventory_rows
    transity_terminal_resv_c.Engine.Database.Sql.order_by select_where at_seat text_eq is_taken
    find_where transity_terminal_resv_c.Engine.Hold.mark_inventory
    transity_terminal_resv_c.Engine.Types.is_success
release_hold_by_ref-atomic_hold_example =
    release_hold_by_ref-atomic_hold recording_publisher (env_at (pos 0) 7) (env_at (pos 5) 9)
      request (pos 300) open_world open_world-IsConsistent refl (λ c. refl)

consumed_is_final_example :
    let (r, w') = release_hold_by_ref (env_at (pos 5) 9) recording_publisher (7 ∷ []) sold_world in
    let (r2, w2) =
      confirm_booking (env_at (pos 5) 9) recording_publisher (7 ∷ []) (codes "C") sold_world in
    (r ≡ ok (record { success = false }))
    × (w'.database.committed ≡ sold_world.database.committed)
    × (w'.bus ≡ sold_world.bus)
    × (r2
        ≡ ok (
            refused (
              if is_live (pos 5) (hold_7 (some (codes "B")))
              then "HOLD_ALREADY_CONSUMED"
              else "HOLD_EXPIRED_OR_MISSING")))
    × (w2.database.committed ≡ sold_world.database.committed)
    × (w2.bus ≡ sold_world.bus)
unfolding find_where has_ref text_eq
consumed_is_final_example =
    consumed_is_final recording_publisher (env_at (pos 5) 9) (7 ∷ []) (codes "B")
      (hold_7 (some (codes "B"))) sold_world (codes "C") sold_world-IsConsistent refl refl
      (λ c. refl)

confirm_booking-cancel_booking_seats_example :
    let w1 =
      (cancel_booking_seats
        (env_at (pos 5) 9)
        recording_publisher
        1
        (codes "1A")
        (pos 1 ∷ pos 2 ∷ [])
        held_world).1 in
    let (r, w2) = confirm_booking (env_at (pos 6) 9) recording_publisher (7 ∷ []) (codes "B") w1 in
    (r ≡ confirmed_reply)
    × (w2.database.committed.inventory ≡ w1.database.committed.inventory)
    × All (λ r. covered (hold_7 none) r ≡ true → r.booked ≡ false) w2.database.committed.inventory
unfolding find_where has_ref text_eq is_live
confirm_booking-cancel_booking_seats_example =
    confirm_booking-cancel_booking_seats recording_publisher (env_at (pos 5) 9) (env_at (pos 6) 9)
      (7 ∷ []) (codes "B") (hold_7 none) held_world held_world-IsConsistent refl refl refl
      (λ c. refl) (λ c. refl)

expire_holds_keeps_example :
    find_where
      (has_ref (7 ∷ []))
      (expire_holds
        (env_at (pos 5) 9)
        recording_publisher
        (pos 30)
        held_world).1.database.committed.holds
    ≡ some (hold_7 none)
unfolding find_where has_ref text_eq is_expired is_purgeable is_active
expire_holds_keeps_example =
    expire_holds_keeps (env_at (pos 5) 9) (pos 30) recording_publisher held_world (7 ∷ [])
      (hold_7 none) held_world-IsConsistent refl (record { unexpired = refl; unpurged = refl })

expire_holds_clears_example :
    let (r, w') =
      expire_holds (env_at (pos 300_000_000) 9) recording_publisher (pos 30) held_world in
    let t = purged_tables (env_at (pos 300_000_000) 9) (pos 30) held_world.database.committed in
    (r
      ≡ ok (record {
        released_count = length (select_where (eligible (env_at (pos 300_000_000) 9)) t.holds);
      }))
    × (any (is_expired (pos 300_000_000)) w'.database.committed.holds ≡ false)
unfolding purge_enabled purge_confirmed is_purgeable is_active delete_where select_where is_expired
expire_holds_clears_example =
    expire_holds_clears (env_at (pos 300_000_000) 9) (pos 30) recording_publisher held_world
      (λ c. refl) refl (λ s. refl) (omega arith)

-- ===== src/Server/Examples/Handlers.antt =====
-- The handlers and the reaper task.
use transity_terminal_resv_c.Common.{
  All, ◌≤◌, ◌*◌, pos, ◌≡◌, ◌≢◌, ◌⊎◌, refl, false, codes, List, [], ◌∷◌, arith, is_empty,
}
use transity_terminal_resv_c.Common.Std.{trim}
use transity_terminal_resv_c.Engine.Types.{Instant}
use transity_terminal_resv_c.Engine.Events.{recording_publisher}
use transity_terminal_resv_c.Engine.Database.{HoldRow, Env}
use transity_terminal_resv_c.Engine.Database.Sql.{select_where}
use transity_terminal_resv_c.Engine.Hold.Outcome.{Allowed, held_by_request}
use transity_terminal_resv_c.Engine.Confirm.Outcome.{confirmed_tables, Confirmable}
use transity_terminal_resv_c.Server.Routes.{post_hold, post_confirm}
use transity_terminal_resv_c.Server.Routes.Laws.{
  status_of_reply, Expires, post_hold_cases, post_confirm_cases,
}
use transity_terminal_resv_c.Engine.Database.Where.{is_active}
use transity_terminal_resv_c.Engine.Reaper.{is_expired}
use transity_terminal_resv_c.Engine.Lifecycle.Backlog.{expired_count, IsQuiet}
use transity_terminal_resv_c.Server.Tasks.{run, run-expired_count}
use transity_terminal_resv_c.Server.Examples.{
  plain_libs, app_state, env_of, free_world, busy_world, hold_request,
}

post_hold_cases_example :
    let (r, w') =
      post_hold plain_libs app_state (env_of (pos 0)) recording_publisher hold_request free_world in
    ((status_of_reply r ≢ 201) × (w'.database.committed ≡ free_world.database.committed))
    ⊎ ((status_of_reply r ≡ 201)
        × (is_empty hold_request.leg_indexes ≡ false)
        × (is_empty (trim hold_request.seat_no) ≡ false)
        × ((expires_at : Instant) × Expires app_state
              (env_of (pos 0))
              hold_request.ttl_class
              expires_at
            × Allowed recording_publisher
                (env_of (pos 0))
                hold_request
                expires_at
                free_world.database.committed
            × (w'.database.committed
                ≡ held_by_request recording_publisher
                    (env_of (pos 0))
                    hold_request
                    expires_at
                    free_world.database.committed)))
post_hold_cases_example =
    post_hold_cases plain_libs app_state (env_of (pos 0)) recording_publisher hold_request
      free_world

post_confirm_cases_example :
    let (r, w') =
      post_confirm plain_libs app_state
        (env_of (pos 5))
        recording_publisher
        (7 ∷ [])
        (record { booking_id = codes "B" })
        busy_world in
    ((status_of_reply r ≢ 200) × (w'.database.committed ≡ busy_world.database.committed))
    ⊎ ((status_of_reply r ≡ 200)
        × ((row : HoldRow) × Confirmable (env_of (pos 5)) (7 ∷ []) busy_world.database.committed row
            × (w'.database.committed
                ≡ confirmed_tables (7 ∷ []) (codes "B") busy_world.database.committed)))
post_confirm_cases_example =
    post_confirm_cases plain_libs app_state (env_of (pos 5)) recording_publisher (7 ∷ [])
      (record { booking_id = codes "B" }) busy_world

-- Two ticks, a minute apart.
abbrev two_ticks : List Env
two_ticks = env_of (pos 300_000_000) ∷ env_of (pos 360_000_000) ∷ []

ticks-IsQuiet : All (IsQuiet (pos 300_000_000) (pos 400_000_000)) two_ticks
ticks-IsQuiet = (
  record { calls = λ c. refl; rows = λ s. refl; after = omega arith; before = omega arith },
  (record { calls = λ c. refl; rows = λ s. refl; after = omega arith; before = omega arith }, tt),
)

one_expires : expired_count (pos 400_000_000) busy_world.database.committed ≤ 500 * 2
unfolding select_where is_expired is_active
one_expires = omega arith

run-expired_count_example :
    expired_count
      (pos 300_000_000)
      (run recording_publisher (pos 30) two_ticks busy_world).database.committed
    ≡ 0
run-expired_count_example =
    run-expired_count recording_publisher (pos 30) (pos 300_000_000) (pos 400_000_000) two_ticks
      busy_world (omega arith) ticks-IsQuiet refl one_expires

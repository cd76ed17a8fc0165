-- ===== src/Server/Examples/Overlapping.antt =====
-- Two requests under one key, of which the second loses its seat to the first.
use transity_terminal_resv_c.Common.{
  pos, ◌≡◌, refl, ◌+ℤ◌, ◌*ℤ◌, codes, [], List, none, some, ok, arith,
}
use transity_terminal_resv_c.Engine.Types.{seconds}
use transity_terminal_resv_c.Engine.Events.{ReservationEvent}
use transity_terminal_resv_c.Engine.Database.{World}
use transity_terminal_resv_c.Engine.Database.Sql.{find_where}
use transity_terminal_resv_c.Server.Http.{Request, Response}
use transity_terminal_resv_c.Server.Store.{lookup, get}
use transity_terminal_resv_c.Server.Layer.{is_cacheable, after_lookup}
use transity_terminal_resv_c.Server.Layer.Replay.{first_response}
use transity_terminal_resv_c.Server.Layer.Overlap.{after_lookup-after_lookup}
use transity_terminal_resv_c.Server.Examples.{
  plain_libs, env_of, free_world, request_with, response_of,
}

abbrev winner : Request → World (List ReservationEvent) → Response × World (List ReservationEvent)
winner r w = (response_of 201, w)

abbrev loser : Request → World (List ReservationEvent) → Response × World (List ReservationEvent)
loser r w = (response_of 409, w)

abbrev of_a_client : Request
of_a_client = request_with (codes "/api/v1/holds") (codes "idempotency-key") (codes "K")

after_lookup-after_lookup_example :
    let (r, w2) =
      after_lookup plain_libs
        (env_of (pos 0))
        (env_of (pos 2))
        winner
        (codes "K")
        (codes "h")
        of_a_client
        (ok none)
        free_world in
    let (r', w4) =
      after_lookup plain_libs
        (env_of (pos 1))
        (env_of (pos 3))
        loser
        (codes "K")
        (codes "h")
        of_a_client
        (ok none)
        w2 in
    (r ≡ ok (first_response (response_of 201) []))
    × (r' ≡ ok (first_response (response_of 409) []))
    × ((get (env_of (pos 5)) (codes "K") w4.database).0
        ≡ ok (some (record { status = 201; body = []; body_hash = codes "h" })))
unfolding is_cacheable lookup find_where seconds ◌+ℤ◌ ◌*ℤ◌
after_lookup-after_lookup_example =
    after_lookup-after_lookup plain_libs (env_of (pos 0)) (env_of (pos 2)) (env_of (pos 1))
      (env_of (pos 3)) (env_of (pos 5)) winner loser (codes "K") (codes "h") (codes "h") of_a_client
      of_a_client [] [] free_world refl refl (omega arith) refl tt refl refl refl (omega arith) refl
      refl refl refl (omega arith) (omega arith) (omega arith)

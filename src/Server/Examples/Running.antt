-- ===== src/Server/Examples/Running.antt =====
-- A running server.
use transity_terminal_resv_c.Common.{pos, List, [], ◌∷◌, codes}
use transity_terminal_resv_c.Engine.Events.{recording_publisher}
use transity_terminal_resv_c.Server.Examples.{
  plain_libs, plain_codec, env_of, free_world, request_with, text_leb,
}
use transity_terminal_resv_c.Server.Examples.Start.{started}
use transity_terminal_resv_c.Server.Service.{Event, request, reaper_tick, sweep_tick, serve}
use transity_terminal_resv_c.Server.Service.Intact.{IsIntact}
use transity_terminal_resv_c.Server.Service.Invariant.{serve-IsIntact}

-- A request, then a tick of each task.
abbrev a_few : List Event
a_few =
    request (pos 1010) (env_of (pos 0)) (env_of (pos 1)) (env_of (pos 2))
      (request_with (codes "/api/v1/holds") (codes "idempotency-key") (codes "k"))
    ∷ reaper_tick (env_of (pos 3))
    ∷ sweep_tick (env_of (pos 4))
    ∷ []

free_world-IsIntact : IsIntact free_world.database.committed
free_world-IsIntact = record {
  consistent = record { distinct = tt; owned = (tt, tt) };
  distinct = tt;
}

serve-IsIntact_example :
    IsIntact
      (serve plain_libs plain_codec started recording_publisher text_leb a_few
        free_world).database.committed
serve-IsIntact_example =
    serve-IsIntact plain_libs plain_codec started recording_publisher text_leb a_few free_world
      free_world-IsIntact

-- ===== src/Server/Service.antt =====
-- main.rs after the start: the tasks and the router that it leaves running, as the events of the
-- process.
pub mod Keys
pub mod Acts
pub mod Intact
pub mod Invariant
use transity_terminal_resv_c.Common.{ℤ, Bool, Text, List, [], ◌∷◌}
use transity_terminal_resv_c.Engine.Events.{Publisher}
use transity_terminal_resv_c.Engine.Database.{Env, World}
use transity_terminal_resv_c.Server.Http.{Request, Libs}
use transity_terminal_resv_c.Server.App.{Codec, router}
use transity_terminal_resv_c.Server.Boot.{Started}
use transity_terminal_resv_c.Server.Tasks.{run, run_idempotency_sweep}

-- A request at a second of the clock, with the calls for the lookup, the handler and the write of
-- the cache; a tick of the reaper task; a tick of the sweep.
pub data Event : Type 0 where
  request : ℤ → Env → Env → Env → Request → Event
  reaper_tick sweep_tick : Env → Event

module _ {S : Type 0} (libs : Libs) (codec : Codec) (started : Started) (publisher : Publisher S)
    (collate : Text → Text → Bool) where
  unfoldable pub serve_event : Event → World S → World S
  unfolding router run run_idempotency_sweep
  serve_event (request now get_env env put_env req) w =
      (router libs codec started.state now get_env env put_env publisher collate req w).1
  serve_event (reaper_tick env) w =
      run publisher started.config.confirmed_holds_retention_days (env ∷ []) w
  serve_event (sweep_tick env) w = record w {
    database = run_idempotency_sweep (env ∷ []) w.database;
  }

  -- The events one after the other.
  unfoldable pub serve : List Event → World S → World S
  unfolding serve_event
  serve [] w = w
  serve (event ∷ events) w = serve events (serve_event event w)

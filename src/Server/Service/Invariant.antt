-- ===== src/Server/Service/Invariant.antt =====
-- What stays true while the server runs.
use transity_terminal_resv_c.Common.{Bool, Text, List, [], ◌∷◌}
use transity_terminal_resv_c.Engine.Events.{Publisher}
use transity_terminal_resv_c.Engine.Database.{Env, World}
use transity_terminal_resv_c.Engine.System.{expire, perform}
use transity_terminal_resv_c.Server.Http.{Request, Libs}
use transity_terminal_resv_c.Server.App.{Codec, route, handle, cached, router}
use transity_terminal_resv_c.Server.Tasks.{run, run_idempotency_sweep}
use transity_terminal_resv_c.Server.Boot.{Started}
use transity_terminal_resv_c.Server.Service.{
  Event, request, reaper_tick, sweep_tick, serve_event, serve,
}
use transity_terminal_resv_c.Server.Service.Keys.{sweep_expired-HasDistinctKeys, sweep_expired-rows}
use transity_terminal_resv_c.Server.Service.Acts.{dispatch-Acts}
use transity_terminal_resv_c.Server.Service.Intact.{
  IsIntact, Intact, perform-IsIntact, Acts-IsIntact, same_rows-IsConsistent, layer-IsIntact,
  verify-IsIntact,
}

module _ {S : Type 0} (libs : Libs) (codec : Codec) (started : Started) (publisher : Publisher S)
    (collate : Text → Text → Bool) where
  handle-IsIntact :
      (env : Env) (req : Request) (w : World S)
      → Intact w
      → Intact (handle libs codec started.state env publisher collate req w).1
  unfolding handle
  handle-IsIntact env req w i =
      Acts-IsIntact publisher env w _
        (dispatch-Acts publisher env w libs started.state codec collate req (route req.path)) i

  serve_event-IsIntact :
      (event : Event) (w : World S)
      → Intact w
      → Intact (serve_event libs codec started publisher collate event w)
  unfolding serve_event router cached run perform run_idempotency_sweep
  serve_event-IsIntact (request now get_env env put_env req) w i =
      verify-IsIntact libs started.state now
        (cached libs codec started.state now get_env env put_env publisher collate)
        (λ r x j.
          layer-IsIntact libs get_env put_env
            (handle libs codec started.state env publisher collate) (handle-IsIntact env) r x j)
        req w i
  serve_event-IsIntact (reaper_tick env) w i =
      perform-IsIntact publisher env (expire started.config.confirmed_holds_retention_days) w i
  serve_event-IsIntact (sweep_tick env) w i = record {
    consistent =
        same_rows-IsConsistent _ _ (sweep_expired-rows env w.database).0
          (sweep_expired-rows env w.database).1 i.consistent;
    distinct = sweep_expired-HasDistinctKeys env w.database i.distinct;
  }

  -- From intact tables the running server, whatever requests it gets, authentic or not, and whatever
  -- fails in them and in the ticks of its two tasks, in any order, leaves intact tables: hold refs are
  -- distinct, a row that carries a ref is unbooked and covered by the unconsumed hold of that ref, and
  -- the idempotency cache has one row per key.
  pub serve-IsIntact :
      (events : List Event) (w : World S)
      → IsIntact w.database.committed
      → IsIntact (serve libs codec started publisher collate events w).database.committed
  unfolding serve
  serve-IsIntact [] w i = i
  serve-IsIntact (event ∷ events) w i =
      serve-IsIntact events (serve_event libs codec started publisher collate event w)
        (serve_event-IsIntact event w i)

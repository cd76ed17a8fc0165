-- ===== src/Loadtest/Network.antt =====
-- The load test's client and the server, joined: a request that the client sends is handled by the
-- router.
pub mod Pass
pub mod Hold
pub mod Keys
pub mod Tables
pub mod Release
pub mod Agreed
pub mod Round
use transity_terminal_resv_c.Common.{ℕ, ℤ, Bool, Text, List, [], ◌∷◌, Option, none, some}
use transity_terminal_resv_c.Engine.Events.{Publisher}
use transity_terminal_resv_c.Engine.Database.{Env, World}
use transity_terminal_resv_c.Server.Http.{Request, Response, Libs}
use transity_terminal_resv_c.Server.State.{AppState}
use transity_terminal_resv_c.Server.App.{Codec, router}
use transity_terminal_resv_c.Loadtest.{Answer}

-- What the world supplies to the handling of one request.
pub record Serving : Type 0 where
  pub now : ℤ
  pub get_env : Env
  pub env : Env
  pub put_env : Env

module _ {S : Type 0} (libs : Libs) (codec : Codec) (state : AppState) (publisher : Publisher S)
    (collate : Text → Text → Bool) where
  abbrev pub answer : Serving → Request → World S → Response × World S
  answer v req w = router libs codec state v.now v.get_env v.env v.put_env publisher collate req w

  -- The server handles one request for each entry of the list; after that it cannot be reached.
  unfoldable pub served :
      Request → World S × List Serving → Option Answer × (World S × List Serving)
  served req (w, []) = (none, (w, []))
  served req (w, v ∷ vs) = let (r, w') = answer v req w in (some (r.status, r.body), (w', vs))

-- ===== src/Engine/System.antt =====
-- The operations that lib.rs exports, as one type, and what each does to the committed tables.
pub mod Committed
pub mod Consistency
pub mod Backed
pub mod Served
pub mod Keys
use transity_terminal_resv_c.Common.{ℕ, ℤ, Text, List, [], ◌∷◌}
use transity_terminal_resv_c.Engine.Types.{Uuid, SeatHoldRequest}
use transity_terminal_resv_c.Engine.Events.{Publisher}
use transity_terminal_resv_c.Engine.Database.{Env, World}
use transity_terminal_resv_c.Engine.Hold.{atomic_hold}
use transity_terminal_resv_c.Engine.Confirm.{confirm_booking}
use transity_terminal_resv_c.Engine.Cancel.{cancel_booking_seats}
use transity_terminal_resv_c.Engine.Release.{release_hold_by_ref}
use transity_terminal_resv_c.Engine.Reaper.{expire_holds}

pub data Operation : Type 0 where
  hold : SeatHoldRequest → ℤ → Operation
  confirm : Text → Text → Operation
  cancel : Uuid → Text → List ℤ → Operation
  release : Text → Operation
  expire : ℤ → Operation

module _ {S : Type 0} (publisher : Publisher S) where
  -- The world after an operation, whatever it returns.
  unfoldable pub perform : Env → Operation → World S → World S
  perform env (hold req ttl_seconds) w = (atomic_hold env publisher req ttl_seconds w).1
  perform env (confirm hold_ref booking_id) w =
      (confirm_booking env publisher hold_ref booking_id w).1
  perform env (cancel trip_id seat_no legs) w =
      (cancel_booking_seats env publisher trip_id seat_no legs w).1
  perform env (release hold_ref) w = (release_hold_by_ref env publisher hold_ref w).1
  perform env (expire retention_days) w = (expire_holds env publisher retention_days w).1

  unfoldable pub perform_all : List (Env × Operation) → World S → World S
  perform_all [] w = w
  perform_all ((env, op) ∷ ops) w = perform_all ops (perform env op w)

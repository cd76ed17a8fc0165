-- ===== src/Engine/Examples.antt =====
-- A small inventory and the states it goes through; the children apply the theorems to them.
mod Histories
mod Lifecycle
mod Replies
mod Interleavings
mod Wire
use transity_terminal_resv_c.Common.{
  ◌≡◌, ◌≢◌, refl, ℕ, ℤ, pos, negsuc, ◌≤◌, ◌+ℤ◌, ◌⊎◌, Bool, true, false, Text, codes, text_eq, List,
  [], ◌∷◌, map, Option, none, some, All, any, length, ok, err, arith, if◌then◌else◌,
}
use transity_terminal_resv_c.Engine.Types.{
  Uuid, seconds, short, long, SeatHoldRequest, InventorySnapshot, Instant,
}
use transity_terminal_resv_c.Engine.Events.{ReservationEvent, recording_publisher}
use transity_terminal_resv_c.Engine.Database.{
  InventoryRow, HoldRow, Tables, Database, AdvisoryLock, unlocked, locked_by, Env, World,
}
use transity_terminal_resv_c.Engine.Database.Sql.{select_where, find_where}
use transity_terminal_resv_c.Engine.Database.Where.{has_ref, held_by, at_seat, is_active, is_live}
use transity_terminal_resv_c.Engine.Hold.{atomic_hold, is_taken}
use transity_terminal_resv_c.Engine.Hold.Outcome.{
  succeeded, Allowed, held_by_request, atomic_hold_cases,
}
use transity_terminal_resv_c.Engine.Hold.Race.{winners, winners_le_one, at_leg}
use transity_terminal_resv_c.Engine.Confirm.{refused, live_hold, confirm_booking}
use transity_terminal_resv_c.Engine.Confirm.Outcome.{confirmed_reply}
use transity_terminal_resv_c.Engine.Cancel.{cancel_booking_seats}
use transity_terminal_resv_c.Engine.Release.{release_hold_by_ref}
use transity_terminal_resv_c.Engine.Reaper.{expire_holds, is_expired}
use transity_terminal_resv_c.Engine.Invariant.{IsConsistent}
use transity_terminal_resv_c.Engine.Backing.{covered, IsBacked}
use transity_terminal_resv_c.Engine.System.{
  Operation, hold, confirm, cancel, release, expire, perform_all,
}
use transity_terminal_resv_c.Engine.System.Consistency.{perform_all-IsConsistent}
use transity_terminal_resv_c.Engine.System.Backed.{
  perform_all-IsBacked, IsBooked, confirm_booking-IsBooked,
}

-- Nothing fails, no row is locked, and the uuid of session n is n.
abbrev pub env_at : Instant → ℕ → Env
env_at now session = record {
  app_now = now;
  event_now = now;
  db_now = now;
  fails = λ c. false;
  new_uuid = session;
  uuid_string = λ u. u ∷ [];
  session = session;
  row_locked = λ s. false;
}

abbrev pub leg_row : ℤ → Bool → Option Text → InventoryRow
leg_row leg booked hold_ref = record {
  trip_id = 1;
  seat_no = codes "1A";
  leg_index = leg;
  booked = booked;
  hold_ref = hold_ref;
}

-- Seat 1A of trip 1 on two legs.
abbrev pub request : SeatHoldRequest
request = record {
  trip_id = 1;
  seat_no = codes "1A";
  leg_indexes = pos 1 ∷ pos 2 ∷ [];
  operator_id = codes "op";
  ttl_class = short;
}

abbrev pub hold_7 : Option Text → HoldRow
hold_7 booking_id = record {
  hold_ref = 7 ∷ [];
  trip_id = 1;
  seat_no = codes "1A";
  leg_indexes = pos 1 ∷ pos 2 ∷ [];
  ttl_class = codes "short";
  operator_id = codes "op";
  booking_id = booking_id;
  expires_at = pos 300_000_000;
}

abbrev pub tables_of : Bool → Option Text → List HoldRow → Tables
tables_of booked hold_ref holds = record {
  inventory = leg_row (pos 1) booked hold_ref ∷ leg_row (pos 2) booked hold_ref ∷ [];
  holds = holds;
  cache = [];
}

abbrev pub world_of : AdvisoryLock → Tables → World (List ReservationEvent)
world_of lock t = record {
  database = record { committed = t; working = t; reaper_lock = lock };
  bus = [];
}

-- Before the hold, with the hold, and with the hold consumed.
abbrev pub open_world : World (List ReservationEvent)
open_world = world_of unlocked (tables_of false none [])

abbrev pub held_world : World (List ReservationEvent)
held_world = world_of unlocked (tables_of false (some (7 ∷ [])) (hold_7 none ∷ []))

abbrev pub sold_world : World (List ReservationEvent)
sold_world = world_of unlocked (tables_of true none (hold_7 (some (codes "B")) ∷ []))

pub open_world-IsConsistent : IsConsistent open_world.database.committed
open_world-IsConsistent = record { distinct = tt; owned = (tt, (tt, tt)) }

pub held_world-IsConsistent : IsConsistent held_world.database.committed
unfolding find_where has_ref text_eq is_active at_seat
held_world-IsConsistent = record {
  distinct = (refl, tt);
  owned = (
    record { row = hold_7 none; found = refl; active = refl; covers = refl; unbooked = refl },
    (record { row = hold_7 none; found = refl; active = refl; covers = refl; unbooked = refl }, tt),
  );
}

pub sold_world-IsConsistent : IsConsistent sold_world.database.committed
unfolding find_where has_ref text_eq
sold_world-IsConsistent = record { distinct = (refl, tt); owned = (tt, (tt, tt)) }

pub held_world-IsBacked : IsBacked held_world.database.committed
held_world-IsBacked = ((λ a. ((λ c. refl), ((λ c. refl), tt))), tt)

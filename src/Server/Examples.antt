-- ===== src/Server/Examples.antt =====
-- Simple stand-ins for the libraries, and a request; the children apply the theorems to them.
mod Idempotency
mod Access
mod Handlers
mod Start
mod Signatures
mod Running
mod Overlapping
use transity_terminal_resv_c.Common.{
  ℕ, ℤ, pos, leb, Bool, true, false, Text, codes, text_eq, List, [], ◌∷◌, length, Option, none,
  some, Result, ok, err, if◌then◌else◌, ◌&&◌,
}
use transity_terminal_resv_c.Engine.Types.{SeatHoldRequest, short, Instant}
use transity_terminal_resv_c.Engine.Events.{ReservationEvent}
use transity_terminal_resv_c.Engine.Database.{
  InventoryRow, HoldRow, CacheRow, Tables, unlocked, Env, World,
}
use transity_terminal_resv_c.Server.Http.{Request, Response, Libs}
use transity_terminal_resv_c.Server.State.{AppState}
use transity_terminal_resv_c.Server.App.{Codec}

-- Digests and encodings that give back what they are given.
abbrev pub plain_libs : Libs
plain_libs = record {
  to_bytes = λ n b. if leb (length b) n then some b else none;
  sha256 = λ b. b;
  hmac_sha256 = λ k. some (λ m. m);
  hex_encode = λ b. b;
  hex_decode = λ s. some s;
  status_from_u16 = λ s. some s;
  is_success = λ s. leb 200 s && leb s 299;
  error_json = λ code message. code;
  error_text = λ e. codes "engine error";
  sqlx_text = λ e. codes "database error";
}

abbrev pub env_of : Instant → Env
env_of now = record {
  app_now = now;
  event_now = now;
  db_now = now;
  fails = λ c. false;
  new_uuid = 7;
  uuid_string = λ u. u ∷ [];
  session = 1;
  row_locked = λ s. false;
}

-- Seat 1A of trip 1 on one leg, free, or held under the ref 7.
abbrev pub hold_request : SeatHoldRequest
hold_request = record {
  trip_id = 1;
  seat_no = codes "1A";
  leg_indexes = pos 1 ∷ [];
  operator_id = codes "op";
  ttl_class = short;
}

abbrev pub world_with : Option Text → List HoldRow → World (List ReservationEvent)
world_with hold_ref holds =
    let row : InventoryRow = record {
      trip_id = 1;
      seat_no = codes "1A";
      leg_index = pos 1;
      booked = false;
      hold_ref = hold_ref;
    } in
    let t : Tables = record { inventory = row ∷ []; holds = holds; cache = [] } in
    record { database = record { committed = t; working = t; reaper_lock = unlocked }; bus = [] }

abbrev pub free_world : World (List ReservationEvent)
free_world = world_with none []

abbrev pub the_hold : HoldRow
the_hold = record {
  hold_ref = 7 ∷ [];
  trip_id = 1;
  seat_no = codes "1A";
  leg_indexes = pos 1 ∷ [];
  ttl_class = codes "short";
  operator_id = codes "op";
  booking_id = none;
  expires_at = pos 300_000_000;
}

abbrev pub busy_world : World (List ReservationEvent)
busy_world = world_with (some (7 ∷ [])) (the_hold ∷ [])

abbrev pub secret : Text
secret = codes "0123456789abcdef"

abbrev pub app_state : AppState
app_state = record {
  hmac_secret = secret;
  hmac_skew_secs = pos 30;
  allowed_service_ids = [];
  ttl_short_secs = pos 300;
  ttl_long_secs = pos 1800;
}

abbrev pub response_of : ℕ → Response
response_of status = record { status = status; headers = []; body = [] }

abbrev pub plain_codec : Codec
plain_codec = record {
  hold_body = λ r. ok hold_request;
  confirm_body = λ r. ok (record { booking_id = codes "B" });
  cancel_body = λ r. err (response_of 422);
  path_string = λ s. ok s;
  path_uuid = λ s. ok 1;
  to_json = λ r. [];
  not_found = response_of 404;
  method_not_allowed = response_of 405;
}

-- A request with one header.
abbrev pub request_with : Text → Text → Text → Request
request_with path name value = record {
  method = codes "POST";
  path = path;
  header = λ n. if text_eq n name then some value else none;
  body = codes "{}";
  service = none;
}

abbrev pub text_leb : Text → Text → Bool
text_leb s t = leb (length s) (length t)

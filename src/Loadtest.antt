-- ===== src/Loadtest.antt =====
-- loadtest/src/main.rs: `run_one`, one hold with its confirmation or release over HTTP, and what the
-- load test counts.
pub mod Seed
pub mod Counts
pub mod Names
pub mod Else
pub mod Ops
pub mod Seeding
pub mod Seats
pub mod Trace
pub mod Network
mod Examples
use transity_terminal_resv_c.Common.{
  ℕ, zero, suc, ℤ, pos, ◌+◌, ◌/◌, ◌%◌, leb, ◌==◌, Bool, true, false, ◌&&◌, ◌||◌, Text, codes,
  text_eq, List, [], ◌∷◌, ◌++◌, Option, none, some, if◌then◌else◌,
}
use transity_terminal_resv_c.Engine.Types.{Uuid}
use transity_terminal_resv_c.Engine.Wire.{
  Json, number, string, array, object, item, no_items, field, no_fields, get_field, as_text,
}
use transity_terminal_resv_c.Server.Http.{Request, Libs}
use transity_terminal_resv_c.Server.Hmac.Sign.{sign, signed_request}

-- The status and the body of a response.
abbrev pub Answer : Type 0
Answer = ℕ × List ℕ

-- What the client uses of other crates: `send` of reqwest over the network and the server that are the
-- state `W`, with `none` for an error; serde_json; the text of a uuid; a histogram.
pub record Crates (W H : Type 0) : Type 0 where
  pub libs : Libs
  pub send : Request → W → Option Answer × W
  pub to_string : Json → Option Text
  pub from_slice : List ℕ → Option Json
  pub show_uuid : Uuid → Text
  pub new_histogram : H
  pub record_value : ℕ → H → H

pub record Stats (H : Type 0) : Type 0 where
  pub hold_hist : H
  pub second_hist : H
  pub held : ℕ  -- `ok`
  pub conflict : ℕ
  pub second_ok : ℕ
  pub errors : ℕ

-- What the clock and the generator of uuids give to one operation.
pub record Draws : Type 0 where
  pub now : ℕ
  pub second_now : ℕ
  pub elapsed_us : ℕ
  pub second_elapsed_us : ℕ
  pub idem : Uuid
  pub second_idem : Uuid
  pub booking_id : Uuid

abbrev pub operator_of : Text → Json
operator_of seat_no = string (codes "loadtest-" ++ seat_no)

-- The headers besides the signature; a release has none.
abbrev pub json_headers : Text → Text → Option Text
json_headers idem name =
    if text_eq name (codes "content-type")
    then some (codes "application/json")
    else if text_eq name (codes "idempotency-key")
    then some idem
    else none

abbrev pub no_headers : Text → Option Text
no_headers name = none

abbrev pub or_empty : Option Text → Text
or_empty none = []
or_empty (some s) = s

unfoldable pub hold_ref_of : Json → Text
hold_ref_of v = or_empty (as_text (get_field (codes "hold_ref") v))

abbrev pub holds_path : Text
holds_path = codes "/api/v1/holds"

abbrev pub hold_path : Text → Text
hold_path hold_ref = codes "/api/v1/holds/" ++ hold_ref

abbrev pub confirm_path : Text → Text
confirm_path hold_ref = hold_path hold_ref ++ codes "/confirm"

module _ {W H : Type 0} (crates : Crates W H) where
  open crates use {libs, send, to_string, from_slice, show_uuid, record_value, new_histogram}

  abbrev pub hold_json : Uuid → Text → Json
  hold_json trip_id seat_no = object (
      field (codes "trip_id") (string (show_uuid trip_id)) (
        field (codes "seat_no") (string seat_no) (
          field (codes "leg_indexes") (array (item (number (pos 1)) no_items)) (
            field (codes "operator_id") (operator_of seat_no)
              (field (codes "ttl_class") (string (codes "short")) no_fields)))))

  abbrev pub confirm_json : Uuid → Text → Json
  confirm_json booking_id seat_no = object (
      field (codes "booking_id") (string (show_uuid booking_id))
        (field (codes "operator_id") (operator_of seat_no) no_fields))

  unfoldable pub new_stats : Stats H
  new_stats = record {
    hold_hist = new_histogram;
    second_hist = new_histogram;
    held = 0;
    conflict = 0;
    second_ok = 0;
    errors = 0;
  }

  unfoldable pub count_held : ℕ → Stats H → Stats H
  count_held us s = record s { hold_hist = record_value (us / 1000) s.hold_hist; held = s.held + 1 }

  unfoldable pub count_conflict : ℕ → Stats H → Stats H
  count_conflict us s = record s {
    hold_hist = record_value (us / 1000) s.hold_hist;
    conflict = s.conflict + 1;
  }

  unfoldable pub count_error : Stats H → Stats H
  count_error s = record s { errors = s.errors + 1 }

  abbrev pub answered_well : Option Answer → Bool
  answered_well none = false
  answered_well (some (status, _)) = libs.is_success status

  unfoldable pub count_second : ℕ → Option Answer → Stats H → Stats H
  count_second us answer s = record s {
    second_hist = record_value (us / 1000) s.second_hist;
    second_ok = s.second_ok + (if answered_well answer then 1 else 0);
  }

  module _ (secret : Text) (trip_id : Uuid) (seat_no : Text) (draws : Draws) where
    -- The second operation, once its request is signed; `sign` panics without an HMAC key.
    unfoldable pub send_second :
        Text
        → Text
        → Text
        → (Text → Option Text)
        → Option (Text × Text × Text)
        → Stats H
        → W
        → Stats H × W
    unfolding count_second
    send_second method path body extra none s w = (s, w)
    send_second method path body extra (some headers) s w =
        let (answer, w') = send (signed_request method path body headers extra) w in
        (count_second draws.second_elapsed_us answer s, w')

    unfoldable pub confirm_held : Text → Option Text → Stats H → W → Stats H × W
    unfolding send_second
    confirm_held hold_ref none s w = (s, w)
    confirm_held hold_ref (some body) s w =
        send_second (codes "POST") (confirm_path hold_ref) body
          (json_headers (show_uuid draws.second_idem))
          (sign libs (pos draws.second_now) (codes "POST") (confirm_path hold_ref) body secret) s w

    unfoldable pub release_held : Text → Stats H → W → Stats H × W
    unfolding send_second
    release_held hold_ref s w =
        send_second (codes "DELETE") (hold_path hold_ref) [] no_headers
          (sign libs (pos draws.second_now) (codes "DELETE") (hold_path hold_ref) [] secret) s w

    unfoldable pub second_op : Text → Text → Stats H → W → Stats H × W
    unfolding confirm_held release_held
    second_op scenario hold_ref s w =
        if text_eq scenario (codes "hold-confirm")
        then confirm_held hold_ref (to_string (confirm_json draws.booking_id seat_no)) s w
        else release_held hold_ref s w

    -- After a 2xx answer: a body that is not JSON ends the operation before it is counted.
    unfoldable pub after_hold : Text → Option Json → Stats H → W → Stats H × W
    unfolding second_op count_held hold_ref_of
    after_hold scenario none s w = (s, w)
    after_hold scenario (some v) s w =
        second_op scenario (hold_ref_of v) (count_held draws.elapsed_us s) w

    unfoldable pub on_answer : Text → Option Answer → Stats H → W → Stats H × W
    unfolding after_hold count_conflict count_error
    on_answer scenario none s w = (count_error s, w)
    on_answer scenario (some (status, body)) s w =
        if libs.is_success status
        then after_hold scenario (from_slice body) s w
        else if status == 409 || status == 422
        then (count_conflict draws.elapsed_us s, w)
        else (count_error s, w)

    unfoldable pub send_hold : Text → Text → Option (Text × Text × Text) → Stats H → W → Stats H × W
    unfolding on_answer
    send_hold scenario body none s w = (s, w)
    send_hold scenario body (some headers) s w =
        let (answer, w') =
          send
            (signed_request (codes "POST") holds_path body headers
              (json_headers (show_uuid draws.idem)))
            w in
        on_answer scenario answer s w'

    unfoldable pub with_hold_body : Text → Option Text → Stats H → W → Stats H × W
    unfolding send_hold
    with_hold_body scenario none s w = (s, w)
    with_hold_body scenario (some body) s w =
        send_hold scenario body (sign libs (pos draws.now) (codes "POST") holds_path body secret) s
          w

    -- The counters and the world after it; its result is dropped.
    unfoldable pub run_one : Text → Stats H → W → Stats H × W
    unfolding with_hold_body
    run_one scenario s w = with_hold_body scenario (to_string (hold_json trip_id seat_no)) s w

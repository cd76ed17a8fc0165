-- ===== src/Engine/Snapshot.antt =====
-- snapshot.rs: `get_inventory_snapshot`.
pub mod Laws
use transity_terminal_resv_c.Common.{
  ℤ, leb_ℤ, ◌==◌, Bool, true, false, Text, text_eq, text_ltb, List, [], ◌∷◌, ◌++◌, map, Option,
  none, some, is_some, Result, ok, err, Action, pure, if◌then◌else◌,
}
use transity_terminal_resv_c.Engine.Types.{
  Uuid, Instant, SeatStatusKind, free, held, booked, LegState, SeatState, InventorySnapshot,
  SqlxError, EngineError, db,
}
use transity_terminal_resv_c.Engine.Database.{
  InventoryRow, HoldRow, Tables, Database, Env, select_rows, call,
}
use transity_terminal_resv_c.Engine.Database.Sql.{select_where, find_where, order_by}
use transity_terminal_resv_c.Engine.Database.Where.{has_ref}

-- A row of the query.
pub record SnapshotRow : Type 0 where
  pub seat_no : Text
  pub leg_index : ℤ
  pub booked : Bool
  pub hold_ref : Option Text
  pub hold_expires_at : Option Instant

-- LEFT JOIN seat_holds h ON h.hold_ref = i.hold_ref; the column is UNIQUE, so one row matches.
unfoldable pub joined_expiry : List HoldRow → Option Text → Option Instant
joined_expiry holds none = none
joined_expiry holds (some hold_ref) = elim (find_where (has_ref hold_ref) holds) [
  | none ↦ none
  | some h ↦ some h.expires_at
]

unfoldable pub join_row : List HoldRow → InventoryRow → SnapshotRow
unfolding joined_expiry
join_row holds i = record {
  seat_no = i.seat_no;
  leg_index = i.leg_index;
  booked = i.booked;
  hold_ref = i.hold_ref;
  hold_expires_at = joined_expiry holds i.hold_ref;
}

-- ORDER BY i.seat_no, i.leg_index, where `collate` is the order of the database's collation.
unfoldable pub seat_order : (Text → Text → Bool) → SnapshotRow → SnapshotRow → Bool
seat_order collate r s =
    if text_eq r.seat_no s.seat_no
    then leb_ℤ r.leg_index s.leg_index
    else collate r.seat_no s.seat_no

unfoldable pub snapshot_rows : (Text → Text → Bool) → Uuid → Tables → List SnapshotRow
snapshot_rows collate trip_id t =
    order_by (seat_order collate) (
      map (join_row t.holds)
        (select_where (λ (i : InventoryRow). i.trip_id == trip_id) t.inventory))

unfoldable pub status_of : SnapshotRow → SeatStatusKind
status_of r = if r.booked then booked else if is_some r.hold_ref then held else free

-- The expiry is shown for a held seat only.
abbrev pub shown_expiry : SeatStatusKind → Option Instant → Option Instant
shown_expiry held e = e
shown_expiry _ e = none

unfoldable pub leg_state : SnapshotRow → LegState
unfolding status_of
leg_state r = record {
  leg_index = r.leg_index;
  status = status_of r;
  hold_expires_at = shown_expiry (status_of r) r.hold_expires_at;
}

-- by_seat.entry(seat_no).or_default().push(leg), with the `BTreeMap` as a list sorted by its keys.
unfoldable pub push_leg : Text → LegState → List SeatState → List SeatState
push_leg seat_no leg [] = record { seat_no = seat_no; leg_states = leg ∷ [] } ∷ []
push_leg seat_no leg (s ∷ ss) =
    if text_eq seat_no s.seat_no
    then record s { leg_states = s.leg_states ++ leg ∷ [] } ∷ ss
    else if text_ltb seat_no s.seat_no
    then record { seat_no = seat_no; leg_states = leg ∷ [] } ∷ s ∷ ss
    else s ∷ push_leg seat_no leg ss

-- The loop over the rows.
unfoldable pub group_rows : List SeatState → List SnapshotRow → List SeatState
unfolding push_leg
group_rows by_seat [] = by_seat
group_rows by_seat (r ∷ rs) = group_rows (push_leg r.seat_no (leg_state r) by_seat) rs

unfoldable pub get_inventory_snapshot :
    Env → (Text → Text → Bool) → Uuid → Action EngineError Database InventorySnapshot
get_inventory_snapshot env collate trip_id d =
    if env.fails select_rows then (err (db SqlxError.call_failed), d) else (
      ok (record {
        trip_id = trip_id;
        seats = group_rows [] (snapshot_rows collate trip_id d.committed);
      }),
      d,
    )

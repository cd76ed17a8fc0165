-- ===== src/Engine/Database/Where.antt =====
-- The conditions of the engine's WHERE clauses on the rows of seat_inventory and seat_holds.
-- A comparison with NULL is not true.
use transity_terminal_resv_c.Common.{
  ℤ, Bool, false, ◌&&◌, Text, text_eq, List, Option, none, some, any, eqb_ℤ, is_none, ltb_ℤ, ◌==◌,
}
use transity_terminal_resv_c.Engine.Types.{Uuid, Instant}
use transity_terminal_resv_c.Engine.Database.{InventoryRow, HoldRow}

-- trip_id = $1 AND seat_no = $2 AND leg_index = ANY($3)
unfoldable pub at_seat : Uuid → Text → List ℤ → InventoryRow → Bool
at_seat trip_id seat_no leg_indexes r =
    r.trip_id == trip_id && (text_eq r.seat_no seat_no && any (eqb_ℤ r.leg_index) leg_indexes)

abbrev pub ref_is : Text → Option Text → Bool
ref_is hold_ref none = false
ref_is hold_ref (some h) = text_eq h hold_ref

-- seat_inventory.hold_ref = $1
unfoldable pub held_by : Text → InventoryRow → Bool
held_by hold_ref r = ref_is hold_ref r.hold_ref

-- seat_holds.hold_ref = $1
unfoldable pub has_ref : Text → HoldRow → Bool
has_ref hold_ref h = text_eq h.hold_ref hold_ref

-- booking_id IS NULL
unfoldable pub is_active : HoldRow → Bool
is_active h = is_none h.booking_id

-- expires_at > now()
unfoldable pub is_live : Instant → HoldRow → Bool
is_live now h = ltb_ℤ now h.expires_at

-- ===== src/Engine/Invariant.antt =====
-- The consistency of seat_inventory and seat_holds: the hold refs are distinct, and every row that
-- carries one is not booked and is covered by the active hold of that ref.
pub mod Keep
pub mod Steps
pub mod Reaped
use transity_terminal_resv_c.Common.{
  ◌≡◌, Bool, true, false, Text, List, [], ◌∷◌, Option, none, some, All,
}
use transity_terminal_resv_c.Engine.Database.{InventoryRow, HoldRow, Tables}
use transity_terminal_resv_c.Engine.Database.Sql.{find_where}
use transity_terminal_resv_c.Engine.Database.Where.{at_seat, has_ref, is_active}

-- The active hold `row` of the ref that the inventory row `r` carries.
pub record Owner (holds : List HoldRow) (r : InventoryRow) (hold_ref : Text) : Type 0 where
  pub row : HoldRow
  pub found : find_where (has_ref hold_ref) holds ≡ some row
  pub active : is_active row ≡ true
  pub covers : at_seat row.trip_id row.seat_no row.leg_indexes r ≡ true
  pub unbooked : r.booked ≡ false

abbrev pub OwnedAt : List HoldRow → InventoryRow → Option Text → Type 0
OwnedAt holds r none = Unit
OwnedAt holds r (some hold_ref) = Owner holds r hold_ref

abbrev pub IsOwned : List HoldRow → InventoryRow → Type 0
IsOwned holds r = OwnedAt holds r r.hold_ref

abbrev pub HasDistinctRefs : List HoldRow → Type 0
HasDistinctRefs [] = Unit
HasDistinctRefs (h ∷ hs) = (find_where (has_ref h.hold_ref) hs ≡ none) × HasDistinctRefs hs

pub record IsConsistent (t : Tables) : Type 0 where
  pub distinct : HasDistinctRefs t.holds
  pub owned : All (IsOwned t.holds) t.inventory

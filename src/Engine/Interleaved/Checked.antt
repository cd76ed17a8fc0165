-- ===== src/Engine/Interleaved/Checked.antt =====
-- What a transaction has found depends on the rows that it has locked.
use transity_terminal_resv_c.Common.{true, false, All}
use transity_terminal_resv_c.Engine.Types.{SeatHoldRequest}
use transity_terminal_resv_c.Engine.Database.Sql.Laws.{any-order_by}
use transity_terminal_resv_c.Engine.Database.Sql.Find.{any-select_where}
use transity_terminal_resv_c.Engine.Hold.{leg_order, is_taken}
use transity_terminal_resv_c.Engine.Interleaved.{HoldChecked, locks_row}
use transity_terminal_resv_c.Common.{◌≡◌, sym, ap, ◌∙◌, Text}
use transity_terminal_resv_c.Engine.Types.{Instant}
use transity_terminal_resv_c.Engine.Database.{Tables}
use transity_terminal_resv_c.Engine.Database.Sql.{select_where, find_where}
use transity_terminal_resv_c.Engine.Database.Where.{has_ref, is_active, is_live}
use transity_terminal_resv_c.Engine.Hold.{inventory_rows}
use transity_terminal_resv_c.Engine.Confirm.{live_hold}
use transity_terminal_resv_c.Engine.Release.{active_hold}
use transity_terminal_resv_c.Engine.System.{hold, confirm, cancel, release, expire}
use transity_terminal_resv_c.Engine.Interleaved.{Txn, IsChecked, Untouched}
use transity_terminal_resv_c.Engine.Interleaved.Select.{find_where-select_where}

pub live_hold-select :
    (hold_ref : Text) (now : Instant) (t : Tables)
    → live_hold hold_ref now t ≡ find_where (is_live now) (select_where (has_ref hold_ref) t.holds)
unfolding live_hold
live_hold-select hold_ref now t = find_where-select_where (has_ref hold_ref) (is_live now) t.holds

pub active_hold-select :
    (hold_ref : Text) (t : Tables)
    → active_hold hold_ref t ≡ find_where is_active (select_where (has_ref hold_ref) t.holds)
unfolding active_hold
active_hold-select hold_ref t = find_where-select_where (has_ref hold_ref) is_active t.holds

pub IsChecked-Untouched :
    (t t' : Tables) (x : Txn) → Untouched t t' x → IsChecked t x → IsChecked t' x
unfolding inventory_rows
IsChecked-Untouched t t' (env, hold req ttl) (e, _) c = record {
  complete = rw e c.complete;
  untaken = rw e c.untaken;
}
IsChecked-Untouched t t' (env, confirm hold_ref booking_id) (_, e) (row, c) = (
  row,
  record {
    live =
        live_hold-select hold_ref env.db_now t'
        ∙ ap (find_where (is_live env.db_now)) e
        ∙ sym (live_hold-select hold_ref env.db_now t)
        ∙ c.live;
    unconsumed = c.unconsumed;
  },
)
IsChecked-Untouched t t' (env, release hold_ref) (_, e) (row, c) = (
  row,
  active_hold-select hold_ref t'
      ∙ ap (find_where is_active) e
      ∙ sym (active_hold-select hold_ref t)
      ∙ c,
)
IsChecked-Untouched t t' (env, cancel _ _ _) e c = absurd c
IsChecked-Untouched t t' (env, expire _) e c = absurd c

-- The rows that a hold has checked are neither booked nor held.
pub checked_untaken :
    (t : Tables) (req : SeatHoldRequest)
    → HoldChecked t req
    → All (λ r. locks_row req r ≡ true → is_taken r ≡ false) t.inventory
unfolding inventory_rows
checked_untaken t req c =
    any-select_where is_taken (locks_row req) t.inventory
      (sym (any-order_by leg_order is_taken _) ∙ c.untaken)

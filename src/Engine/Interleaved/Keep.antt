-- ===== src/Engine/Interleaved/Keep.antt =====
-- The writes of one transaction leave the rows alone that the others have locked.
use transity_terminal_resv_c.Common.{
  ℤ, ◌≡◌, refl, sym, ◌∙◌, Bool, true, false, Text, text_eq, text_eq_iff, List, [], ◌∷◌, none, some,
  All, All-mono, All-of, arith, ◌+ℤ◌,
}
use transity_terminal_resv_c.Engine.Types.{SeatHoldRequest, as_str, seconds}
use transity_terminal_resv_c.Engine.Database.{HoldRow, Tables, Env}
use transity_terminal_resv_c.Engine.Database.Sql.{select_where, find_where}
use transity_terminal_resv_c.Engine.Database.Sql.Laws.{map-update_where}
use transity_terminal_resv_c.Engine.Database.Where.{at_seat, held_by, has_ref, is_active, is_live}
use transity_terminal_resv_c.Engine.Hold.{is_taken, mark_inventory, new_hold}
use transity_terminal_resv_c.Engine.Confirm.{book_inventory, consume_hold}
use transity_terminal_resv_c.Engine.Confirm.Outcome.{confirmed_tables}
use transity_terminal_resv_c.Engine.Release.{unmark_inventory, delete_hold_row}
use transity_terminal_resv_c.Engine.Release.Outcome.{released_tables}
use transity_terminal_resv_c.Engine.Invariant.Keep.{has_ref-ne}
use transity_terminal_resv_c.Engine.System.{hold, confirm, cancel, release, expire}
use transity_terminal_resv_c.Engine.System.Keys.{seat_key, seat_keys}
use transity_terminal_resv_c.Engine.Interleaved.{
  Txn, locks_row, locks_key, Disjoint, Apart, HoldChecked, IsChecked, IsFresh, effect, Untouched,
}
use transity_terminal_resv_c.Engine.Interleaved.Select.{
  All-map, select_where-update_where, select_where-delete_where,
}
use transity_terminal_resv_c.Engine.Interleaved.Checked.{
  live_hold-select, active_hold-select, checked_untaken,
}

-- The rows that a hold has checked carry no ref.
checked_unheld :
    (t : Tables) (req : SeatHoldRequest) (hold_ref : Text)
    → HoldChecked t req
    → All (λ r. held_by hold_ref r ≡ true → locks_row req r ≡ false) t.inventory
checked_unheld t req hold_ref c =
    All-mono (λ r. locks_row req r ≡ true → is_taken r ≡ false) _ t.inventory
      (λ r h. unfold held_by is_taken in ground arith) (checked_untaken t req c)

-- A ref that is found is not a fresh one.
found_ne_fresh :
    (g r : Text) (p : HoldRow → Bool) (hs : List HoldRow) (row : HoldRow)
    → find_where (has_ref g) hs ≡ none
    → find_where p (select_where (has_ref r) hs) ≡ some row
    → text_eq g r ≡ false
unfolding find_where select_where has_ref
found_ne_fresh g r p [] row fresh found = cc
found_ne_fresh g r p (h ∷ hs) row fresh found = ground (
  arith,
  text_eq_iff g r,
  text_eq_iff h.hold_ref r,
  text_eq_iff h.hold_ref g,
  found_ne_fresh g r p hs row,
)

select_new :
    (h : HoldRow) (r : Text) (hs : List HoldRow)
    → text_eq h.hold_ref r ≡ false
    → select_where (has_ref r) (h ∷ hs) ≡ select_where (has_ref r) hs
unfolding select_where has_ref
select_new h r hs ne = rw ne refl

apart_refs :
    (r s : Text) → text_eq r s ≡ false → (h : HoldRow) → has_ref r h ≡ true → has_ref s h ≡ false
apart_refs r s ne h e = has_ref-ne r s h ne e

module _ (t : Tables) where
  -- A hold.
  hold-SeatsSame :
      (a b : SeatHoldRequest) (hold_ref : Text)
      → Disjoint t a b
      → select_where
          (locks_row b)
          (mark_inventory a.trip_id a.seat_no a.leg_indexes hold_ref t).inventory
        ≡ select_where (locks_row b) t.inventory
  unfolding mark_inventory at_seat
  hold-SeatsSame a b hold_ref apart =
      select_where-update_where (locks_row a) (locks_row b)
        (λ r. record r { hold_ref = some hold_ref }) (λ r. refl) t.inventory
        (All-map (λ k. locks_key a k ≡ true → locks_key b k ≡ false) seat_key t.inventory apart)

  -- A confirmation.
  confirm-SeatsSame :
      (req : SeatHoldRequest) (hold_ref booking_id : Text)
      → HoldChecked t req
      → select_where (locks_row req) (confirmed_tables hold_ref booking_id t).inventory
        ≡ select_where (locks_row req) t.inventory
  unfolding book_inventory consume_hold at_seat
  confirm-SeatsSame req hold_ref booking_id c =
      select_where-update_where (held_by hold_ref) (locks_row req)
        (λ r. record r { booked = true; hold_ref = none }) (λ r. refl) t.inventory
        (checked_unheld t req hold_ref c)

  confirm-RefSame :
      (r s booking_id : Text)
      → text_eq r s ≡ false
      → select_where (has_ref s) (confirmed_tables r booking_id t).holds
        ≡ select_where (has_ref s) t.holds
  unfolding book_inventory consume_hold
  confirm-RefSame r s booking_id ne =
      select_where-update_where (has_ref r) (has_ref s)
        (λ h. record h { booking_id = some booking_id }) (λ h. unfold has_ref in refl) t.holds
        (All-of _ (apart_refs r s ne) t.holds)

  -- A release.
  release-SeatsSame :
      (req : SeatHoldRequest) (hold_ref : Text)
      → HoldChecked t req
      → select_where (locks_row req) (released_tables hold_ref t).inventory
        ≡ select_where (locks_row req) t.inventory
  unfolding unmark_inventory delete_hold_row at_seat
  release-SeatsSame req hold_ref c =
      select_where-update_where (held_by hold_ref) (locks_row req)
        (λ r. record r { hold_ref = none }) (λ r. refl) t.inventory
        (checked_unheld t req hold_ref c)

  release-RefSame :
      (r s : Text)
      → text_eq r s ≡ false
      → select_where (has_ref s) (released_tables r t).holds ≡ select_where (has_ref s) t.holds
  unfolding unmark_inventory delete_hold_row
  release-RefSame r s ne =
      select_where-delete_where (has_ref r) (has_ref s) t.holds
        (All-of _ (apart_refs r s ne) t.holds)

  hold-RefSame :
      (env : Env) (req : SeatHoldRequest) (ttl : ℤ) (r : Text) (p : HoldRow → Bool) (row : HoldRow)
      → IsFresh t (env, hold req ttl)
      → find_where p (select_where (has_ref r) t.holds) ≡ some row
      → select_where (has_ref r) (effect (env, hold req ttl) t).holds
        ≡ select_where (has_ref r) t.holds
  unfolding mark_inventory new_hold
  hold-RefSame env req ttl r p row fresh found =
      select_new
        (new_hold req.trip_id req.seat_no req.leg_indexes req.operator_id (as_str req.ttl_class)
          (env.uuid_string env.new_uuid) (env.app_now +ℤ seconds ttl))
        r t.holds
        (unfold new_hold in
          found_ne_fresh (env.uuid_string env.new_uuid) r p t.holds row fresh found)

  -- The writes of a transaction `x` that has its locks.
  pub effect-Untouched :
      (x y : Txn)
      → IsFresh t x
      → IsChecked t x
      → IsChecked t y
      → Apart t x y
      → Untouched t (effect x t) y
  effect-Untouched (env, hold a ttl) (_, hold b _) fresh c d apart =
      (hold-SeatsSame a b (env.uuid_string env.new_uuid) apart.0.0, tt)
  effect-Untouched (env, hold a ttl) (e, confirm s _) fresh c (row, d) apart = (
    tt,
    hold-RefSame env a ttl s (is_live e.db_now) row fresh
        (sym (live_hold-select s e.db_now t) ∙ d.live),
  )
  effect-Untouched (env, hold a ttl) (_, release s) fresh c (row, d) apart =
      (tt, hold-RefSame env a ttl s is_active row fresh (sym (active_hold-select s t) ∙ d))
  effect-Untouched (_, confirm r booking_id) (_, hold b _) fresh c d apart =
      (confirm-SeatsSame b r booking_id d, tt)
  effect-Untouched (_, confirm r booking_id) (_, confirm s _) fresh c d apart =
      (tt, confirm-RefSame r s booking_id apart.1.0)
  effect-Untouched (_, confirm r booking_id) (_, release s) fresh c d apart =
      (tt, confirm-RefSame r s booking_id apart.1.0)
  effect-Untouched (_, release r) (_, hold b _) fresh c d apart = (release-SeatsSame b r d, tt)
  effect-Untouched (_, release r) (_, confirm s _) fresh c d apart =
      (tt, release-RefSame r s apart.1.0)
  effect-Untouched (_, release r) (_, release s) fresh c d apart =
      (tt, release-RefSame r s apart.1.0)
  effect-Untouched _ (_, cancel _ _ _) fresh c d apart = absurd d
  effect-Untouched _ (_, expire _) fresh c d apart = absurd d
  effect-Untouched (_, cancel _ _ _) _ fresh c d apart = absurd c
  effect-Untouched (_, expire _) _ fresh c d apart = absurd c

-- The seats and legs stay the same.
pub effect-seat_keys : (x : Txn) (t : Tables) → seat_keys (effect x t) ≡ seat_keys t
unfolding mark_inventory book_inventory consume_hold unmark_inventory delete_hold_row
effect-seat_keys (_, hold _ _) t = map-update_where {0, 0, 0} seat_key _ _ (λ r. refl) t.inventory
effect-seat_keys (_, confirm _ _) t =
    map-update_where {0, 0, 0} seat_key _ _ (λ r. refl) t.inventory
effect-seat_keys (_, release _) t = map-update_where {0, 0, 0} seat_key _ _ (λ r. refl) t.inventory
effect-seat_keys (_, cancel _ _ _) t = refl
effect-seat_keys (_, expire _) t = refl

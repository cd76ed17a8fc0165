-- ===== src/Engine/Lifecycle/HoldRelease.antt =====
-- A hold that is released again.
use transity_terminal_resv_c.Common.{
  ℤ, ◌≡◌, refl, ◌∙◌, ap, ◌+ℤ◌, true, false, Text, text_eq_iff, text_eq_refl, List, ◌∷◌, Option,
  none, some, arith, ok, inl, inr,
}
use transity_terminal_resv_c.Engine.Types.{Uuid, Instant, seconds, as_str, SeatHoldRequest}
use transity_terminal_resv_c.Engine.Events.{Publisher}
use transity_terminal_resv_c.Engine.Database.{
  InventoryRow, HoldRow, Tables, Call, Env, World, Database, begin, commit, select_hold,
  update_inventory, delete_hold,
}
use transity_terminal_resv_c.Engine.Database.Sql.{find_where, update_where, delete_where}
use transity_terminal_resv_c.Engine.Database.Sql.Find.{All-both}
use transity_terminal_resv_c.Engine.Database.Sql.Any.{update_where_undo, delete_where_unfound}
use transity_terminal_resv_c.Engine.Database.Where.{at_seat, held_by, has_ref, is_active}
use transity_terminal_resv_c.Engine.Hold.{is_taken, mark_inventory, new_hold, atomic_hold}
use transity_terminal_resv_c.Engine.Hold.Outcome.{
  held_tables, HoldAllowed, untaken_rows, succeeded, atomic_hold_cases,
}
use transity_terminal_resv_c.Engine.Release.{
  active_hold, unmark_inventory, delete_hold_row, release_txn, release_hold_by_ref,
}
use transity_terminal_resv_c.Engine.Release.Outcome.{released_tables, release_reply}
use transity_terminal_resv_c.Engine.Invariant.{IsOwned, OwnedAt, IsConsistent}

-- In consistent tables no row carries a ref that seat_holds does not have.
unheld_of_fresh :
    (holds : List HoldRow) (hold_ref : Text) (r : InventoryRow)
    → find_where (has_ref hold_ref) holds ≡ none
    → IsOwned holds r
    → held_by hold_ref r ≡ false
unfolding held_by
unheld_of_fresh holds hold_ref r fresh o = go r.hold_ref refl o
  where
    go : (h : Option Text) → r.hold_ref ≡ h → OwnedAt holds r h → held_by hold_ref r ≡ false
    go none e o = rw e refl
    go (some g) e o = ground (
      arith,
      text_eq_iff g hold_ref,
      o.found,
      fresh,
      λ (same : g ≡ hold_ref). ap (λ h. find_where (has_ref h) holds) same,
    )

marked_is_held :
    (r : InventoryRow) (hold_ref : Text)
    → held_by hold_ref (record r { hold_ref = some hold_ref }) ≡ true
unfolding held_by
marked_is_held r hold_ref = text_eq_refl hold_ref

untaken_row : (r : InventoryRow) → is_taken r ≡ false → record r { hold_ref = none } ≡ r
unfolding is_taken
untaken_row r e = ground arith

module _ (trip_id : Uuid) (seat_no : Text) (legs : List ℤ) (operator_id ttl_class hold_ref : Text)
    (expires_at : Instant) (t : Tables) where
  -- The release of a hold takes both writes of the hold back.
  pub released-held :
      HoldAllowed trip_id seat_no legs operator_id ttl_class hold_ref expires_at t
      → IsConsistent t
      → released_tables hold_ref
          (held_tables trip_id seat_no legs operator_id ttl_class hold_ref expires_at t)
        ≡ t
  unfolding mark_inventory unmark_inventory delete_hold_row new_hold delete_where has_ref
  released-held allowed c = cc (inventory_back, holds_back)
    where
      inventory_back :
          update_where
            (held_by hold_ref)
            (λ r. record r { hold_ref = none })
            (update_where
              (at_seat trip_id seat_no legs)
              (λ r. record r { hold_ref = some hold_ref })
              t.inventory)
          ≡ t.inventory
      inventory_back =
          update_where_undo
            (λ r. IsOwned t.holds r × (at_seat trip_id seat_no legs r ≡ true → is_taken r ≡ false))
            (at_seat trip_id seat_no legs) (held_by hold_ref) _ _
            (λ r h e. (marked_is_held r hold_ref, untaken_row r (h.1 e)))
            (λ r h e. unheld_of_fresh t.holds hold_ref r allowed.fresh h.0) t.inventory
            (All-both _ _ t.inventory c.owned (
              untaken_rows trip_id seat_no legs operator_id ttl_class hold_ref expires_at t
                allowed))

      holds_back :
          delete_where
            (has_ref hold_ref)
            (new_hold trip_id seat_no legs operator_id ttl_class hold_ref expires_at ∷ t.holds)
          ≡ t.holds
      holds_back = ground (
        arith,
        text_eq_refl hold_ref,
        delete_where_unfound (has_ref hold_ref) t.holds allowed.fresh,
      )

-- With no failing call an active hold is released.
pub release_txn_quiet :
    (env : Env) (hold_ref : Text) (d : Database) (row : HoldRow)
    → ((c : Call) → env.fails c ≡ false)
    → active_hold hold_ref d.committed ≡ some row
    → let (r, d') = release_txn env hold_ref d in
      (r ≡ ok (some row)) × (d'.committed ≡ released_tables hold_ref d.committed)
unfolding release_txn
release_txn_quiet env hold_ref d row quiet found =
    ground (
      arith,
      quiet begin,
      quiet select_hold,
      quiet update_inventory,
      quiet delete_hold,
      quiet commit,
    )

pub active_hold-held :
    (trip_id : Uuid) (seat_no : Text) (legs : List ℤ) (operator_id ttl_class hold_ref : Text)
    (expires_at : Instant) (t : Tables)
    → active_hold hold_ref
        (held_tables trip_id seat_no legs operator_id ttl_class hold_ref expires_at t)
      ≡ some (new_hold trip_id seat_no legs operator_id ttl_class hold_ref expires_at)
unfolding active_hold find_where new_hold has_ref is_active
active_hold-held trip_id seat_no legs operator_id ttl_class hold_ref expires_at t = rw text_eq_refl

module _ {S : Type 0} (publisher : Publisher S) (env later : Env) (req : SeatHoldRequest)
    (ttl_seconds : ℤ) (w : World S) where
  -- In consistent tables, releasing the ref of a successful hold, with no failing database call,
  -- reports success and leaves the committed tables exactly as they were before the hold.
  pub release_hold_by_ref-atomic_hold :
      IsConsistent w.database.committed
      → succeeded (atomic_hold env publisher req ttl_seconds w).0 ≡ true
      → ((c : Call) → later.fails c ≡ false)
      → let w1 = (atomic_hold env publisher req ttl_seconds w).1 in
        let (r, w2) = release_hold_by_ref later publisher (env.uuid_string env.new_uuid) w1 in
        (r ≡ ok (record { success = true })) × (w2.database.committed ≡ w.database.committed)
  unfolding release_hold_by_ref
  release_hold_by_ref-atomic_hold c won quiet =
      elim (atomic_hold_cases publisher env req ttl_seconds w) [
        | inl (failed, _) ↦ cc
        | inr (_, allowed, e) ↦
            let hold_ref = env.uuid_string env.new_uuid in
            let expires_at = env.app_now +ℤ seconds ttl_seconds in
            let w1 = (atomic_hold env publisher req ttl_seconds w).1 in
            let row =
              new_hold req.trip_id req.seat_no req.leg_indexes req.operator_id
                (as_str req.ttl_class) hold_ref expires_at in
            let found : active_hold hold_ref w1.database.committed ≡ some row =
              ap (active_hold hold_ref) e ∙ active_hold-held _ _ _ _ _ hold_ref _ _ in
            let (done, freed) = release_txn_quiet later hold_ref w1.database row quiet found in
            (
              (release_reply publisher later hold_ref w1 row done).0,
              freed
                  ∙ ap (released_tables hold_ref) e
                  ∙ released-held _ _ _ _ _ hold_ref _ _ allowed c,
            )
      ]

-- ===== src/Engine/Hold/Outcome.antt =====
-- What the transaction of `atomic_hold` leaves behind, on every branch.
use transity_terminal_resv_c.Common.{
  ℤ, ◌≡◌, ◌≢◌, ◌⊎◌, ◌∙◌, inl, inr, refl, Bool, true, false, Text, List, ◌∷◌, none, length, any,
  arith, ok, err, sym, ap, All, ◌+ℤ◌, Result,
}
use transity_terminal_resv_c.Engine.Types.{
  Uuid, Instant, seconds, as_str, SeatHoldRequest, HoldFailureReason, AtomicHoldResult, is_success,
  SqlxError, EngineError,
}
use transity_terminal_resv_c.Engine.Events.{Publisher}
use transity_terminal_resv_c.Engine.Database.{Tables, Database, Env, World}
use transity_terminal_resv_c.Engine.Database.Sql.{find_where}
use transity_terminal_resv_c.Engine.Database.Sql.Laws.{any-order_by}
use transity_terminal_resv_c.Engine.Database.Sql.Find.{any-select_where}
use transity_terminal_resv_c.Engine.Database.Where.{at_seat, has_ref}
use transity_terminal_resv_c.Engine.Hold.{
  leg_order, inventory_rows, is_taken, mark_inventory, new_hold, run_hold_txn, finish_hold,
  atomic_hold,
}

module _ (trip_id : Uuid) (seat_no : Text) (leg_indexes : List ℤ)
    (operator_id ttl_class hold_ref : Text) (expires_at : Instant) where
  -- The tables after a hold: the rows marked, and one row more in seat_holds.
  abbrev pub held_tables : Tables → Tables
  held_tables t = record (mark_inventory trip_id seat_no leg_indexes hold_ref t) {
    holds =
        new_hold trip_id seat_no leg_indexes operator_id ttl_class hold_ref expires_at
        ∷ (mark_inventory trip_id seat_no leg_indexes hold_ref t).holds;
  }

  -- What a successful hold has found.
  pub record HoldAllowed (t : Tables) : Type 0 where
    pub complete : length (inventory_rows trip_id seat_no leg_indexes t) ≡ length leg_indexes
    pub untaken : any is_taken (inventory_rows trip_id seat_no leg_indexes t) ≡ false
    pub fresh : find_where (has_ref hold_ref) t.holds ≡ none

  pub run_hold_txn_cases :
      (env : Env) (d : Database)
      → let (r, d') =
          run_hold_txn env trip_id seat_no leg_indexes operator_id ttl_class hold_ref expires_at
            d in
        ((r ≢ ok (ok tt)) × (d'.committed ≡ d.committed))
        ⊎ ((r ≡ ok (ok tt)) × HoldAllowed d.committed × (d'.committed ≡ held_tables d.committed))
  unfolding run_hold_txn mark_inventory
  run_hold_txn_cases env d = ground arith

  -- The rows that a successful hold marks were neither booked nor held.
  pub untaken_rows :
      (t : Tables)
      → HoldAllowed t
      → All (λ r. at_seat trip_id seat_no leg_indexes r ≡ true → is_taken r ≡ false) t.inventory
  unfolding inventory_rows
  untaken_rows t allowed =
      any-select_where is_taken (at_seat trip_id seat_no leg_indexes) t.inventory
        (sym (any-order_by leg_order is_taken _) ∙ allowed.untaken)

-- `is_success` of what a call of `atomic_hold` returns.
abbrev pub succeeded : Result EngineError AtomicHoldResult → Bool
succeeded (ok r) = is_success r
succeeded (err e) = false

module _ {S : Type 0} (publisher : Publisher S) (env : Env) (req : SeatHoldRequest) where
  succeeded-finish :
      (expires_at : Instant) (r : Result SqlxError (Result HoldFailureReason (Unit {0}))) (bus : S)
      → r ≢ ok (ok tt)
      → succeeded (finish_hold env publisher req expires_at r bus).0 ≡ false
  unfolding finish_hold is_success
  succeeded-finish expires_at (ok (ok u)) bus h = absurd (h refl)
  succeeded-finish expires_at (ok (err reason)) bus h = refl
  succeeded-finish expires_at (err e) bus h = refl

  -- What a hold finds when it succeeds, and what it leaves.
  abbrev pub Allowed : Instant → Tables → Type 0
  Allowed expires_at =
      HoldAllowed req.trip_id req.seat_no req.leg_indexes req.operator_id (as_str req.ttl_class)
        (env.uuid_string env.new_uuid) expires_at

  abbrev pub held_by_request : Instant → Tables → Tables
  held_by_request expires_at =
      held_tables req.trip_id req.seat_no req.leg_indexes req.operator_id (as_str req.ttl_class)
        (env.uuid_string env.new_uuid) expires_at

  -- Whatever fails, a hold that does not report success leaves the committed tables as they were; one
  -- that does found every requested leg, none booked or held, and a fresh ref, and left each of them
  -- marked with it and one hold row more.
  pub atomic_hold_cases :
      (ttl_seconds : ℤ) (w : World S)
      → let (r, w') = atomic_hold env publisher req ttl_seconds w in
        let expires_at = env.app_now +ℤ seconds ttl_seconds in
        ((succeeded r ≡ false) × (w'.database.committed ≡ w.database.committed))
        ⊎ ((succeeded r ≡ true)
            × Allowed expires_at w.database.committed
            × (w'.database.committed ≡ held_by_request expires_at w.database.committed))
  unfolding atomic_hold finish_hold is_success
  atomic_hold_cases ttl_seconds w =
      let expires_at = env.app_now +ℤ seconds ttl_seconds in
      let r =
        (run_hold_txn env req.trip_id req.seat_no req.leg_indexes req.operator_id
          (as_str req.ttl_class) (env.uuid_string env.new_uuid) expires_at w.database).0 in
      elim (run_hold_txn_cases req.trip_id req.seat_no req.leg_indexes req.operator_id
        (as_str req.ttl_class) (env.uuid_string env.new_uuid) expires_at env w.database) [
          | inl (failed, e) ↦ inl (succeeded-finish expires_at r w.bus failed, e)
          | inr (done, allowed, e) ↦ inr (
            ap (λ x. succeeded (finish_hold env publisher req expires_at x w.bus).0) done,
            allowed,
            e,
          )
        ]

-- ===== src/Engine/Hold/Race.antt =====
-- Holds that compete for one leg of a seat.
use transity_terminal_resv_c.Common.{
  ℕ, ℤ, ◌+◌, ◌≤◌, ◌≡◌, refl, ap, Bool, true, ◌&&◌, Text, text_eq, text_eq_iff, List, [], ◌∷◌, any,
  eqb_ℤ, eqb_ℤ_iff, ◌==◌, arith, inl, inr, if◌then◌else◌,
}
use transity_terminal_resv_c.Engine.Types.{Uuid, SeatHoldRequest, as_str}
use transity_terminal_resv_c.Engine.Events.{Publisher}
use transity_terminal_resv_c.Engine.Database.{InventoryRow, Tables, Env, World}
use transity_terminal_resv_c.Engine.Database.Sql.Any.{any-update_where_hit, any-All_contra}
use transity_terminal_resv_c.Engine.Database.Where.{at_seat}
use transity_terminal_resv_c.Engine.Hold.{is_taken, mark_inventory, atomic_hold}
use transity_terminal_resv_c.Engine.Hold.Outcome.{
  HoldAllowed, untaken_rows, succeeded, atomic_hold_cases,
}

-- How many of the requests, served one after the other, succeed.
pub winners : {S : Type 0} → Publisher S → List (Env × SeatHoldRequest × ℤ) → World S → ℕ
winners publisher [] w = 0
winners publisher ((env, req, ttl) ∷ rs) w =
    let (r, w') = atomic_hold env publisher req ttl w in
    (if succeeded r then 1 else 0) + winners publisher rs w'

-- The row of one leg of a seat.
unfoldable pub at_leg : Uuid → Text → ℤ → InventoryRow → Bool
at_leg trip_id seat_no leg r =
    r.trip_id == trip_id && (text_eq r.seat_no seat_no && eqb_ℤ r.leg_index leg)

module _ (trip_id : Uuid) (seat_no : Text) (leg : ℤ) where
  -- The request names that leg.
  pub record Covers (req : SeatHoldRequest) : Type 0 where
    pub same_trip : req.trip_id ≡ trip_id
    pub same_seat : req.seat_no ≡ seat_no
    pub has_leg : any (eqb_ℤ leg) req.leg_indexes ≡ true

  -- Some row of the leg is booked or held.
  abbrev IsTaken : Tables → Type 0
  IsTaken t = any (λ r. at_leg trip_id seat_no leg r && is_taken r) t.inventory ≡ true

  abbrev pub HasLeg : Tables → Type 0
  HasLeg t = any (at_leg trip_id seat_no leg) t.inventory ≡ true

  at_seat_of_at_leg :
      (req : SeatHoldRequest)
      → Covers req
      → (r : InventoryRow) → at_leg trip_id seat_no leg r ≡ true
      → at_seat req.trip_id req.seat_no req.leg_indexes r ≡ true
  unfolding at_leg at_seat
  at_seat_of_at_leg req c r e =
      let same : r.leg_index ≡ leg = (eqb_ℤ_iff r.leg_index leg).0 (ground arith) in
      ground (
        arith,
        ap (λ z. any (eqb_ℤ z) req.leg_indexes) same,
        text_eq_iff r.seat_no seat_no,
        text_eq_iff r.seat_no req.seat_no,
      )

  module _ (req : SeatHoldRequest) (c : Covers req) (operator_id ttl_class hold_ref : Text) where
    taken_refuses :
        (expires_at : ℤ) (t : Tables)
        → IsTaken t
        → HoldAllowed req.trip_id req.seat_no req.leg_indexes operator_id ttl_class hold_ref
            expires_at t
        → ⊥
    taken_refuses expires_at t taken allowed =
        any-All_contra (at_leg trip_id seat_no leg) is_taken
          (at_seat req.trip_id req.seat_no req.leg_indexes) (at_seat_of_at_leg req c) t.inventory
          (untaken_rows _ _ _ _ _ _ _ t allowed) taken

    mark_takes :
        (t : Tables)
        → HasLeg t
        → IsTaken (mark_inventory req.trip_id req.seat_no req.leg_indexes hold_ref t)
    unfolding mark_inventory at_leg is_taken
    mark_takes t h =
        any-update_where_hit _ _ _ (at_leg trip_id seat_no leg) (at_seat_of_at_leg req c)
          (λ r e. ground arith) t.inventory h

  module _ {S : Type 0} (publisher : Publisher S) where
    abbrev pub AllCover : List (Env × SeatHoldRequest × ℤ) → Type 0
    AllCover [] = Unit
    AllCover ((env, req, ttl) ∷ rs) = Covers req × AllCover rs

    no_winner :
        (rs : List (Env × SeatHoldRequest × ℤ)) (w : World S)
        → AllCover rs
        → IsTaken w.database.committed
        → winners publisher rs w ≡ 0
    unfolding winners
    no_winner [] w c taken = refl
    no_winner ((env, req, ttl) ∷ rs) w (c, cs) taken =
        elim (atomic_hold_cases publisher env req ttl w) [
          | inl (failed, same) ↦ rw failed (
              omega
                (arith, no_winner rs (atomic_hold env publisher req ttl w).1 cs (rw same taken)))
          | inr (_, allowed, _) ↦ absurd (taken_refuses req c _ _ _ _ _ taken allowed)
        ]

    -- Of any requests for one leg of a seat, served in any order and whatever database calls fail,
    -- at most one hold succeeds.
    pub winners_le_one :
        (rs : List (Env × SeatHoldRequest × ℤ)) (w : World S)
        → AllCover rs
        → HasLeg w.database.committed
        → winners publisher rs w ≤ 1
    unfolding winners
    winners_le_one [] w c h = omega arith
    winners_le_one ((env, req, ttl) ∷ rs) w (c, cs) h =
        elim (atomic_hold_cases publisher env req ttl w) [
          | inl (failed, same) ↦ rw failed (
              omega
                (arith, winners_le_one rs (atomic_hold env publisher req ttl w).1 cs (rw same h)))
          | inr (won, allowed, e) ↦ rw won (
              omega (
                arith,
                no_winner rs (atomic_hold env publisher req ttl w).1 cs (
                    rw e (
                      mark_takes req c req.operator_id (as_str req.ttl_class)
                        (env.uuid_string env.new_uuid) _ h)),
              ))
        ]

-- ===== src/Loadtest/Else.antt =====
-- The changes that an operation on the load test's seats makes to the other rows: none.
use transity_terminal_resv_c.Common.{
  ℤ, ◌≡◌, refl, ◌∙◌, Bool, true, false, Text, text_eq_iff, List, [], ◌∷◌, Option, none, some, All,
  All-mono, All-of, arith, inl, inr, Bool-cases,
}
use transity_terminal_resv_c.Engine.Types.{Uuid, Instant}
use transity_terminal_resv_c.Engine.Database.{InventoryRow, HoldRow, Tables}
use transity_terminal_resv_c.Engine.Database.Sql.{update_where, delete_where}
use transity_terminal_resv_c.Engine.Database.Where.{at_seat, held_by, has_ref}
use transity_terminal_resv_c.Engine.Database.Sql.Laws.{find_where_sound}
use transity_terminal_resv_c.Engine.Database.Sql.Find.{All-find_where}
use transity_terminal_resv_c.Engine.Hold.{mark_inventory, new_hold}
use transity_terminal_resv_c.Engine.Hold.Outcome.{held_tables}
use transity_terminal_resv_c.Engine.Confirm.{book_inventory, consume_hold}
use transity_terminal_resv_c.Engine.Confirm.Outcome.{confirmed_tables}
use transity_terminal_resv_c.Engine.Cancel.{free_seat}
use transity_terminal_resv_c.Engine.Release.{unmark_inventory, delete_hold_row}
use transity_terminal_resv_c.Engine.Release.Outcome.{released_tables}
use transity_terminal_resv_c.Engine.Invariant.{OwnedAt, IsOwned, IsConsistent}
use transity_terminal_resv_c.Loadtest.Seed.{is_seeded}

module _ {ℓ} {A : Type ℓ} (p : A → Bool) where
  -- A deletion does not see an update of what it deletes, nor an earlier deletion of it.
  delete_where-update_where :
      (q : A → Bool) (f : A → A) (xs : List A)
      → All (λ x. q x ≡ true → (p x ≡ true) × (p (f x) ≡ true)) xs
      → delete_where p (update_where q f xs) ≡ delete_where p xs
  unfolding delete_where update_where
  delete_where-update_where q f [] h = refl
  delete_where-update_where q f (x ∷ xs) h = elim (Bool-cases (q x)) [
    | inl hit ↦
        let (gone, gone') = h.0 hit in rw (hit, gone, gone') (delete_where-update_where q f xs h.1)
    | inr miss ↦ rw (miss, delete_where-update_where q f xs h.1) refl
  ]

  pub delete_where-delete_where :
      (q : A → Bool) (xs : List A)
      → All (λ x. q x ≡ true → p x ≡ true) xs
      → delete_where p (delete_where q xs) ≡ delete_where p xs
  unfolding delete_where
  delete_where-delete_where q [] h = refl
  delete_where-delete_where q (x ∷ xs) h = ground (arith, h.0, delete_where-delete_where q xs h.1)

  pub delete_where_none : (xs : List A) → All (λ x. p x ≡ false) xs → delete_where p xs ≡ xs
  unfolding delete_where
  delete_where_none [] h = refl
  delete_where_none (x ∷ xs) h = rw (h.0, delete_where_none xs h.1) refl

module _ (trip_id : Uuid) (prefix : Text) where
  abbrev pub seat_is_ours : InventoryRow → Bool
  seat_is_ours r = is_seeded trip_id prefix r.trip_id r.seat_no

  abbrev pub hold_is_ours : HoldRow → Bool
  hold_is_ours h = is_seeded trip_id prefix h.trip_id h.seat_no

  -- Tables that differ in rows of the load test only.
  pub record SameElse (t t' : Tables) : Type 0 where
    pub seats : delete_where seat_is_ours t'.inventory ≡ delete_where seat_is_ours t.inventory
    pub holds : delete_where hold_is_ours t'.holds ≡ delete_where hold_is_ours t.holds

  pub SameElse-refl : (t : Tables) → SameElse t t
  SameElse-refl t = record { seats = refl; holds = refl }

  pub SameElse-trans : (t u v : Tables) → SameElse t u → SameElse u v → SameElse t v
  SameElse-trans t u v a b = record { seats = b.seats ∙ a.seats; holds = b.holds ∙ a.holds }

  -- The hold of a ref, if there is one, is of the load test.
  abbrev pub RefIsOurs : Text → Tables → Type 0
  RefIsOurs r t = All (λ h. has_ref r h ≡ true → hold_is_ours h ≡ true) t.holds

  seat_of_at_seat :
      (trip : Uuid) (seat_no : Text) (legs : List ℤ) (r : InventoryRow)
      → at_seat trip seat_no legs r ≡ true
      → (r.trip_id ≡ trip) × (r.seat_no ≡ seat_no)
  unfolding at_seat
  seat_of_at_seat trip seat_no legs r e = ground (arith, text_eq_iff r.seat_no seat_no)

  -- A row at the seat of one of our holds is ours.
  ours_at_seat :
      (trip : Uuid) (seat_no : Text) (legs : List ℤ) (r : InventoryRow)
      → is_seeded trip_id prefix trip seat_no ≡ true
      → at_seat trip seat_no legs r ≡ true
      → seat_is_ours r ≡ true
  ours_at_seat trip seat_no legs r ours e = let (a, b) = seat_of_at_seat trip seat_no legs r e in cc

  -- So is one that carries the ref of such a hold.
  ours_held :
      (holds : List HoldRow) (ref : Text) (r : InventoryRow)
      → All (λ h. has_ref ref h ≡ true → hold_is_ours h ≡ true) holds
      → IsOwned holds r
      → held_by ref r ≡ true
      → seat_is_ours r ≡ true
  ours_held holds ref r ours owned = go r.hold_ref refl owned
    where
      go :
          (o : Option Text)
          → r.hold_ref ≡ o
          → OwnedAt holds r o
          → held_by ref r ≡ true
          → seat_is_ours r ≡ true
      go none e owned held = unfold held_by in absurd (ground arith)
      go (some g) e owned held =
          let same : g ≡ ref = unfold held_by in ground (arith, text_eq_iff g ref) in
          let found = rw same at owned.found in
          ours_at_seat owned.row.trip_id owned.row.seat_no owned.row.leg_indexes r
            (All-find_where (λ h. has_ref ref h ≡ true → hold_is_ours h ≡ true) (has_ref ref) holds
              owned.row ours found (find_where_sound (has_ref ref) holds owned.row found))
            owned.covers

  module _ (t : Tables) where
    pub hold-SameElse :
        (trip : Uuid) (seat_no : Text) (legs : List ℤ) (operator_id ttl_class ref : Text)
        (expires_at : Instant)
        → is_seeded trip_id prefix trip seat_no ≡ true
        → SameElse t (held_tables trip seat_no legs operator_id ttl_class ref expires_at t)
    unfolding mark_inventory new_hold delete_where
    hold-SameElse trip seat_no legs operator_id ttl_class ref expires_at ours = record {
      seats =
          delete_where-update_where seat_is_ours (at_seat trip seat_no legs)
            (λ r. record r { hold_ref = some ref }) t.inventory
            (All-of _
              (λ r at. (
                ours_at_seat trip seat_no legs r ours at,
                ours_at_seat trip seat_no legs r ours at,
              ))
              t.inventory);
      holds = rw ours refl;
    }

    pub confirm-SameElse :
        (ref booking_id : Text)
        → RefIsOurs ref t
        → IsConsistent t
        → SameElse t (confirmed_tables ref booking_id t)
    unfolding book_inventory consume_hold
    confirm-SameElse ref booking_id ours c = record {
      seats =
          delete_where-update_where seat_is_ours (held_by ref)
            (λ r. record r { booked = true; hold_ref = none }) t.inventory
            (All-mono (IsOwned t.holds) _ t.inventory
              (λ r o e. (ours_held t.holds ref r ours o e, ours_held t.holds ref r ours o e))
              c.owned);
      holds =
          delete_where-update_where hold_is_ours (has_ref ref)
            (λ h. record h { booking_id = some booking_id }) t.holds
            (All-mono (λ h. has_ref ref h ≡ true → hold_is_ours h ≡ true) _ t.holds
              (λ h o e. (o e, o e)) ours);
    }

    pub release-SameElse :
        (ref : Text) → RefIsOurs ref t → IsConsistent t → SameElse t (released_tables ref t)
    unfolding unmark_inventory delete_hold_row
    release-SameElse ref ours c = record {
      seats =
          delete_where-update_where seat_is_ours (held_by ref) (λ r. record r { hold_ref = none })
            t.inventory
            (All-mono (IsOwned t.holds) _ t.inventory
              (λ r o e. (ours_held t.holds ref r ours o e, ours_held t.holds ref r ours o e))
              c.owned);
      holds = delete_where-delete_where hold_is_ours (has_ref ref) t.holds ours;
    }

    pub cancel-SameElse :
        (trip : Uuid) (seat_no : Text) (legs : List ℤ)
        → is_seeded trip_id prefix trip seat_no ≡ true
        → SameElse t (free_seat trip seat_no legs t)
    unfolding free_seat
    cancel-SameElse trip seat_no legs ours = record {
      seats =
          delete_where-update_where seat_is_ours (at_seat trip seat_no legs)
            (λ r. record r { booked = false; hold_ref = none }) t.inventory
            (All-of _
              (λ r at. (
                ours_at_seat trip seat_no legs r ours at,
                ours_at_seat trip seat_no legs r ours at,
              ))
              t.inventory);
      holds = refl;
    }

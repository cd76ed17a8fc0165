-- ===== src/Engine/Snapshot/Laws.antt =====
-- What a snapshot shows.
use mathlib.Core.List.{append-nil, append_assoc}
use transity_terminal_resv_c.Common.{
  ◌≡◌, refl, ap, sym, ◌∙◌, Bool, true, false, Text, text_eq, text_eq_iff, text_ltb,
  text_ltb_trichotomy, text_ltb_trans, text_ltb_irrefl, List, [], ◌∷◌, ◌++◌, map, Option, none,
  some, ok, arith, Bool-cases, inl, inr, if◌then◌else◌, All, All-mono,
}
use transity_terminal_resv_c.Engine.Types.{
  Uuid, LegState, SeatState, InventorySnapshot, held, booked, free,
}
use transity_terminal_resv_c.Engine.Database.{InventoryRow, HoldRow, Database, Env, select_rows}
use transity_terminal_resv_c.Engine.Database.Sql.{select_where, find_where}
use transity_terminal_resv_c.Engine.Database.Where.{has_ref, is_active}
use transity_terminal_resv_c.Engine.Invariant.{IsOwned, OwnedAt}
use transity_terminal_resv_c.Engine.Snapshot.{
  SnapshotRow, join_row, snapshot_rows, leg_state, push_leg, group_rows, get_inventory_snapshot,
}

-- The legs that a snapshot lists for a seat; none where it lists no such seat.
pub legs_of : Text → List SeatState → List LegState
legs_of seat_no [] = []
legs_of seat_no (s ∷ ss) = if text_eq s.seat_no seat_no then s.leg_states else legs_of seat_no ss

-- The seats in the order of their names, each once.
abbrev pub Above : Text → List SeatState → Type 0
Above seat_no = All (λ s. text_ltb seat_no s.seat_no ≡ true)

abbrev pub IsOrdered : List SeatState → Type 0
IsOrdered [] = Unit
IsOrdered (s ∷ ss) = Above s.seat_no ss × IsOrdered ss

push_leg-Above :
    (lower seat_no : Text) (leg : LegState) (ss : List SeatState)
    → text_ltb lower seat_no ≡ true
    → Above lower ss
    → Above lower (push_leg seat_no leg ss)
unfolding push_leg
push_leg-Above lower seat_no leg [] h a = (h, tt)
push_leg-Above lower seat_no leg (s ∷ ss) h a =
    ground (arith, push_leg-Above lower seat_no leg ss h a.1)

push_leg-IsOrdered :
    (seat_no : Text) (leg : LegState) (ss : List SeatState)
    → IsOrdered ss
    → IsOrdered (push_leg seat_no leg ss)
unfolding push_leg
push_leg-IsOrdered seat_no leg [] o = (tt, tt)
push_leg-IsOrdered seat_no leg (s ∷ ss) o = elim (Bool-cases (text_eq seat_no s.seat_no)) [
  | inl same ↦ rw same o
  | inr other ↦ elim (Bool-cases (text_ltb seat_no s.seat_no)) [
    | inl below ↦
        rw (other, below)
          (
            (
              below,
              All-mono _ _ ss (λ x h. text_ltb_trans seat_no s.seat_no x.seat_no below h) o.0,
            ),
            o,
          )
    | inr above ↦
        rw (other, above)
          (
            push_leg-Above s.seat_no seat_no leg ss
                (text_ltb_trichotomy seat_no s.seat_no above other) o.0,
            push_leg-IsOrdered seat_no leg ss o.1,
          )
  ]
]

group_rows-IsOrdered :
    (ss : List SeatState) (rows : List SnapshotRow) → IsOrdered ss → IsOrdered (group_rows ss rows)
unfolding group_rows
group_rows-IsOrdered ss [] o = o
group_rows-IsOrdered ss (r ∷ rs) o =
    group_rows-IsOrdered (push_leg r.seat_no (leg_state r) ss) rs
      (push_leg-IsOrdered r.seat_no (leg_state r) ss o)

legs_of-Above : (k : Text) (ss : List SeatState) → Above k ss → legs_of k ss ≡ []
unfolding legs_of
legs_of-Above k [] a = refl
legs_of-Above k (s ∷ ss) a = ground (
  arith,
  legs_of-Above k ss a.1,
  text_eq_iff s.seat_no k,
  text_ltb_irrefl k,
  λ (e : s.seat_no ≡ k). ap (text_ltb k) e,
)

Above-cons :
    (k : Text) (s : SeatState) (ss : List SeatState)
    → text_ltb k s.seat_no ≡ true
    → IsOrdered (s ∷ ss)
    → Above k (s ∷ ss)
Above-cons k s ss below o =
    (below, All-mono _ _ ss (λ x h. text_ltb_trans k s.seat_no x.seat_no below h) o.0)

-- A pushed leg comes last among the legs of its seat, and other seats keep theirs.
legs_of-push_leg :
    (k seat_no : Text) (leg : LegState) (ss : List SeatState)
    → IsOrdered ss
    → legs_of k (push_leg seat_no leg ss)
      ≡ (if text_eq seat_no k then legs_of k ss ++ leg ∷ [] else legs_of k ss)
unfolding push_leg legs_of
legs_of-push_leg k seat_no leg [] o = ground arith
legs_of-push_leg k seat_no leg (s ∷ ss) o = elim (Bool-cases (text_eq seat_no s.seat_no)) [
  | inl same ↦
      let e : seat_no ≡ s.seat_no = (text_eq_iff seat_no s.seat_no).0 same in
      rw same (ground (arith, ap (λ x. text_eq x k) e))
  | inr other ↦ elim (Bool-cases (text_ltb seat_no s.seat_no)) [
    | inl below ↦
        rw (other, below)
          (ground (
            arith,
            text_eq_iff seat_no k,
            λ (e : seat_no ≡ k). ap (λ x. legs_of x (s ∷ ss)) e,
            legs_of-Above seat_no (s ∷ ss) (Above-cons seat_no s ss below o),
          ))
    | inr above ↦
        rw (other, above)
          (ground (
            arith,
            legs_of-push_leg k seat_no leg ss o.1,
            text_eq_iff seat_no k,
            text_eq_iff s.seat_no k,
            text_eq_iff seat_no s.seat_no,
          ))
  ]
]

group_rows-legs_of :
    (k : Text) (ss : List SeatState) (rows : List SnapshotRow)
    → IsOrdered ss
    → legs_of k (group_rows ss rows)
      ≡ legs_of k ss ++ map leg_state (select_where (λ r. text_eq r.seat_no k) rows)
unfolding group_rows select_where
group_rows-legs_of k ss [] o = sym (append-nil (legs_of k ss))
group_rows-legs_of k ss (r ∷ rs) o =
    group_rows-legs_of k (push_leg r.seat_no (leg_state r) ss) rs
      (push_leg-IsOrdered r.seat_no (leg_state r) ss o)
    ∙ (elim (Bool-cases (text_eq r.seat_no k)) [
      | inl hit ↦
          rw (legs_of-push_leg k r.seat_no (leg_state r) ss o, hit)
            (append_assoc (legs_of k ss) (leg_state r ∷ [])
              (map leg_state (select_where (λ x. text_eq x.seat_no k) rs)))
      | inr miss ↦ rw (legs_of-push_leg k r.seat_no (leg_state r) ss o, miss) refl
    ])

-- Where the query succeeds, a snapshot changes nothing, lists its seats once each in the order of
-- their names, and lists for each seat the states of the query's rows of that seat, in their order.
pub get_inventory_snapshot-legs_of :
    (env : Env) (collate : Text → Text → Bool) (trip_id : Uuid) (d : Database)
    → env.fails select_rows ≡ false
    → (snap : InventorySnapshot) × (get_inventory_snapshot env collate trip_id d ≡ (ok snap, d))
      × IsOrdered snap.seats
      × ((seat_no : Text)
          → legs_of seat_no snap.seats
            ≡ map leg_state (
                select_where
                  (λ r. text_eq r.seat_no seat_no)
                  (snapshot_rows collate trip_id d.committed)))
unfolding get_inventory_snapshot
get_inventory_snapshot-legs_of env collate trip_id d fine =
    let rows = snapshot_rows collate trip_id d.committed in
    (
      record { trip_id = trip_id; seats = group_rows [] rows },
      rw fine,
      group_rows-IsOrdered [] rows tt,
      λ k. unfold legs_of in group_rows-legs_of k [] rows tt,
    )

-- What the leg of an inventory row is shown as, by the ref that the row carries.
abbrev pub Shows : List HoldRow → InventoryRow → LegState → Option Text → Type 0
Shows holds i l none = (l.status ≡ (if i.booked then booked else free)) × (l.hold_expires_at ≡ none)
Shows holds i l (some hold_ref) =
    (h : HoldRow) × (find_where (has_ref hold_ref) holds ≡ some h)
    × (is_active h ≡ true)
    × (l.status ≡ held)
    × (l.hold_expires_at ≡ some h.expires_at)

-- A row of consistent tables is shown held exactly if it carries a ref, with the expiry of the
-- unconsumed hold of that ref; otherwise it is shown booked or free, with no expiry.
pub leg_state-join_row :
    (holds : List HoldRow) (i : InventoryRow)
    → IsOwned holds i
    → Shows holds i (leg_state (join_row holds i)) i.hold_ref
unfolding leg_state join_row
leg_state-join_row holds i o = go i.hold_ref refl o
  where
    go :
        (h : Option Text)
        → i.hold_ref ≡ h
        → OwnedAt holds i h
        → Shows holds i (leg_state (join_row holds i)) h
    go none e o = ground arith
    go (some hold_ref) e o =
        (o.row, o.found, o.active, ground (arith, o.unbooked), ground (arith, o.found, o.unbooked))

-- ===== src/Loadtest/Seeding.antt =====
-- What the seeding changes.
use transity_terminal_resv_c.Common.{
  ℕ, zero, suc, ◌≡◌, refl, ◌∙◌, true, ◌⊎◌, Text, ◌∷◌, arith, inl, inr, Action, ◌>>◌,
}
use transity_terminal_resv_c.Engine.Types.{Uuid}
use transity_terminal_resv_c.Engine.Database.{Tables, Database, Env, seed_row, execute_checked}
use transity_terminal_resv_c.Engine.Database.Sql.{delete_where}
use transity_terminal_resv_c.Engine.Invariant.{IsConsistent}
use transity_terminal_resv_c.Loadtest.Seed.{is_seeded, seeded_row, insert_seat, insert_seats, seed}
use transity_terminal_resv_c.Loadtest.Names.{IsLiteral, like-seat_name}
use transity_terminal_resv_c.Loadtest.Else.{seat_is_ours, SameElse, SameElse-refl, SameElse-trans}

bind-cases :
    {E S A B : Type 0} (m : Action E S A) (k : Action E S B) (s : S)
    → (((m >> k) s).1 ≡ (m s).1) ⊎ (((m >> k) s).1 ≡ (k (m s).1).1)
bind-cases m k s = ground arith

module _ (trip_id : Uuid) (prefix : Text) where
  -- The seeding.
  module _ (literal : IsLiteral prefix) where
    pub seeded_is_ours : (i : ℕ) → seat_is_ours trip_id prefix (seeded_row trip_id prefix i) ≡ true
    unfolding seeded_row is_seeded
    seeded_is_ours i = ground (arith, like-seat_name prefix i literal)

    insert-SameElse :
        (i : ℕ) (t : Tables)
        → SameElse trip_id prefix t
            (record t { inventory = seeded_row trip_id prefix i ∷ t.inventory })
    unfolding delete_where
    insert-SameElse i t = record { seats = rw (seeded_is_ours i) refl; holds = refl }

    insert-IsConsistent :
        (i : ℕ) (t : Tables)
        → IsConsistent t
        → IsConsistent (record t { inventory = seeded_row trip_id prefix i ∷ t.inventory })
    unfolding seeded_row
    insert-IsConsistent i t c = record { distinct = c.distinct; owned = (tt, c.owned) }

    record Seeded (d d' : Database) : Type 0 where
      kept : d'.committed ≡ d.committed
      else : SameElse trip_id prefix d.working d'.working
      consistent : IsConsistent d.working → IsConsistent d'.working

    insert_seat-cases :
        (env : Env) (i : ℕ) (d : Database)
        → let d' = (execute_checked env seed_row (insert_seat (seeded_row trip_id prefix i)) d).1 in
          let t = d.working in
          (d' ≡ d)
          ⊎ (d' ≡ record d {
            working = record t { inventory = seeded_row trip_id prefix i ∷ t.inventory };
          })
    unfolding execute_checked insert_seat
    insert_seat-cases env i d = ground arith

    Seeded-refl : (d : Database) → Seeded d d
    Seeded-refl d = record {
      kept = refl;
      else = SameElse-refl trip_id prefix d.working;
      consistent = λ c. c;
    }

    Seeded-trans : (d e f : Database) → Seeded d e → Seeded e f → Seeded d f
    Seeded-trans d e f a b = record {
      kept = b.kept ∙ a.kept;
      else = SameElse-trans trip_id prefix d.working e.working f.working a.else b.else;
      consistent = λ c. b.consistent (a.consistent c);
    }

    Seeded-eq : (d e f : Database) → f ≡ e → Seeded d e → Seeded d f
    Seeded-eq d e f same s = rw same s

    insert_seat-Seeded :
        (env : Env) (i : ℕ) (d : Database)
        → Seeded d (execute_checked env seed_row (insert_seat (seeded_row trip_id prefix i)) d).1
    insert_seat-Seeded env i d = elim (insert_seat-cases env i d) [
      | inl e ↦ Seeded-eq d d _ e (Seeded-refl d)
      | inr e ↦ Seeded-eq d _ _ e (record {
        kept = refl;
        else = insert-SameElse i d.working;
        consistent = insert-IsConsistent i d.working;
      })
    ]

    insert_seats-Seeded :
        (env : Env) (n : ℕ) (d : Database) → Seeded d (insert_seats env trip_id prefix n d).1
    unfolding insert_seats
    insert_seats-Seeded env zero d = Seeded-refl d
    insert_seats-Seeded env (suc n) d =
        elim (bind-cases (insert_seats env trip_id prefix n)
          (execute_checked env seed_row (insert_seat (seeded_row trip_id prefix n))) d) [
            | inl e ↦ Seeded-eq d _ _ e (insert_seats-Seeded env n d)
            | inr e ↦
                let d1 = (insert_seats env trip_id prefix n d).1 in
                Seeded-eq d _ _ e
                  (Seeded-trans d d1 _ (insert_seats-Seeded env n d) (insert_seat-Seeded env n d1))
          ]

    seed-cases :
        (env : Env) (n : ℕ) (d : Database)
        → let c = record d { working = d.committed } in
          let d' = (seed env trip_id prefix n d).1 in
          (d'.committed ≡ d.committed)
          ⊎ (d'.committed ≡ (insert_seats env trip_id prefix n c).1.committed)
          ⊎ (d'.committed ≡ (insert_seats env trip_id prefix n c).1.working)
    unfolding seed
    seed-cases env n d = ground arith

    pub seed-SameElse :
        (env : Env) (n : ℕ) (d : Database)
        → IsConsistent d.committed
        → let t' = (seed env trip_id prefix n d).1.committed in
          SameElse trip_id prefix d.committed t' × IsConsistent t'
    seed-SameElse env n d c =
        let from = record d { working = d.committed } in
        let s = insert_seats-Seeded env n from in
        elim (seed-cases env n d) [
          | inl e ↦ rw e (SameElse-refl trip_id prefix d.committed, c)
          | inr (inl e) ↦ rw (e, s.kept) (SameElse-refl trip_id prefix d.committed, c)
          | inr (inr e) ↦ rw e (s.else, s.consistent c)
        ]

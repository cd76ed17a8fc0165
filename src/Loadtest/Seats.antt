-- ===== src/Loadtest/Seats.antt =====
-- The seeding succeeds, and adds as many seats as it is to.
use transity_terminal_resv_c.Common.{
  ℕ, zero, suc, ◌<◌, ◌≤◌, ◌^◌, ◌≡◌, refl, pos, length, some, true, false, Text, text_eq_iff, List,
  [], ◌∷◌, ◌++◌, All, none, arith, ok, Bool-cases, inl, inr,
}
use transity_terminal_resv_c.Common.Std.{parse_digits}
use transity_terminal_resv_c.Engine.Types.{Uuid}
use transity_terminal_resv_c.Engine.Database.{
  InventoryRow, Tables, Database, Call, Env, begin, commit, seed_row, execute_checked,
}
use transity_terminal_resv_c.Engine.Database.Sql.{find_where}
use transity_terminal_resv_c.Loadtest.Seed.{
  seat_name, padded, seeded_row, same_seat, insert_seat, insert_seats, seed,
}
use transity_terminal_resv_c.Loadtest.Names.{
  padded_wide, parse_digits-padded, IsLiteral, seat_name_inj,
}
use transity_terminal_resv_c.Loadtest.Else.{seat_is_ours}
use transity_terminal_resv_c.Loadtest.Seeding.{seeded_is_ours}

module _ (trip_id : Uuid) (prefix : Text) where
  abbrev seeded_rows : ℕ → List InventoryRow
  seeded_rows zero = []
  seeded_rows (suc n) = seeded_row trip_id prefix n ∷ seeded_rows n

  same_seat_of :
      (r s : InventoryRow)
      → same_seat r s ≡ true
      → (s.trip_id ≡ r.trip_id) × (s.seat_no ≡ r.seat_no)
  unfolding same_seat
  same_seat_of r s e = ground (arith, text_eq_iff s.seat_no r.seat_no)

  apart_seats :
      (m n : ℕ)
      → m < n
      → n < 10 ^ 20
      → same_seat (seeded_row trip_id prefix n) (seeded_row trip_id prefix m) ≡ false
  apart_seats m n lt small =
      elim (Bool-cases (same_seat (seeded_row trip_id prefix n) (seeded_row trip_id prefix m))) [
        | inl e ↦
            let (_, named) =
              same_seat_of (seeded_row trip_id prefix n) (seeded_row trip_id prefix m) e in
            let same : m ≡ n =
              seat_name_inj prefix m n (omega arith) small (unfold seeded_row in named) in
            absurd (omega arith)
        | inr e ↦ e
      ]

  -- A seeded row is not among rows that are not the load test's.
  absent :
      (literal : IsLiteral prefix) (n : ℕ) (rows : List InventoryRow)
      → All (λ r. seat_is_ours trip_id prefix r ≡ false) rows
      → find_where (same_seat (seeded_row trip_id prefix n)) rows ≡ none
  unfolding find_where
  absent literal n [] h = refl
  absent literal n (r ∷ rs) h = elim (Bool-cases (same_seat (seeded_row trip_id prefix n) r)) [
    | inl e ↦
        let (a, b) = same_seat_of (seeded_row trip_id prefix n) r e in
        cc (h.0, seeded_is_ours trip_id prefix literal n, a, b)
    | inr e ↦ rw e (absent literal n rs h.1)
  ]

  fresh_seat :
      (literal : IsLiteral prefix) (n m : ℕ) (rows : List InventoryRow)
      → m ≤ n
      → n < 10 ^ 20
      → All (λ r. seat_is_ours trip_id prefix r ≡ false) rows
      → find_where (same_seat (seeded_row trip_id prefix n)) (seeded_rows m ++ rows) ≡ none
  unfolding find_where
  fresh_seat literal n zero rows le small unused = absent literal n rows unused
  fresh_seat literal n (suc m) rows le small unused =
      rw (apart_seats m n (omega arith) small)
        (fresh_seat literal n m rows (omega arith) small unused)

  -- The tables with `n` seats more.
  abbrev with_seats : ℕ → Tables → Tables
  with_seats n t = record t { inventory = seeded_rows n ++ t.inventory }

  insert_seats_lem :
      (literal : IsLiteral prefix) (env : Env) (n : ℕ) (d : Database)
      → ((c : Call) → env.fails c ≡ false)
      → n ≤ 10 ^ 20
      → All (λ r. seat_is_ours trip_id prefix r ≡ false) d.working.inventory
      → insert_seats env trip_id prefix n d ≡ (ok tt, record d { working = with_seats n d.working })
  unfolding insert_seats execute_checked insert_seat
  insert_seats_lem literal env zero d quiet small unused = refl
  insert_seats_lem literal env (suc n) d quiet small unused = ground (
    arith,
    quiet seed_row,
    insert_seats_lem literal env n d quiet,
    fresh_seat literal n n d.working.inventory (omega arith) (omega arith) unused,
  )

  -- The free seat `i` of the load test: on leg 1 of the trip, neither booked nor held, named by the
  -- prefix and the number `i` in at least four digits.
  pub record IsFreeSeat (i : ℕ) (r : InventoryRow) : Type 0 where
    pub trip : r.trip_id ≡ trip_id
    pub leg : r.leg_index ≡ pos 1
    pub unbooked : r.booked ≡ false
    pub unheld : r.hold_ref ≡ none
    pub number : Text
    pub named : r.seat_no ≡ prefix ++ number
    pub decimal : parse_digits 0 number ≡ some i
    pub wide : 4 ≤ length number

  -- Free seats with the numbers below `n`, one each.
  abbrev pub AreFreeSeats : ℕ → List InventoryRow → Type 0
  AreFreeSeats n [] = n ≡ 0
  AreFreeSeats n (r ∷ rs) = (i : ℕ) × (n ≡ suc i) × IsFreeSeat i r × AreFreeSeats i rs

  seeded_row-IsFreeSeat : (i : ℕ) → i < 10 ^ 20 → IsFreeSeat i (seeded_row trip_id prefix i)
  unfolding seeded_row seat_name
  seeded_row-IsFreeSeat i small = record {
    trip = refl;
    leg = refl;
    unbooked = refl;
    unheld = refl;
    number = padded i;
    named = refl;
    decimal = parse_digits-padded i small;
    wide = padded_wide i;
  }

  seeded_rows-AreFreeSeats : (n : ℕ) → n ≤ 10 ^ 20 → AreFreeSeats n (seeded_rows n)
  seeded_rows-AreFreeSeats zero small = refl
  seeded_rows-AreFreeSeats (suc n) small =
      (n, refl, seeded_row-IsFreeSeat n (omega arith), seeded_rows-AreFreeSeats n (omega arith))

  -- With no failing call, where no row is the load test's under a literal prefix, the seeding of up
  -- to 10^20 seats succeeds (the unique index refuses none of its rows) and adds to the committed
  -- inventory one row for each number below that of the seats: free, on leg 1 of the trip, and named
  -- by the prefix and the number in at least four digits. Nothing else is changed.
  pub seed_lem :
      (env : Env) (n : ℕ) (d : Database)
      → IsLiteral prefix
      → ((c : Call) → env.fails c ≡ false)
      → n ≤ 10 ^ 20
      → All (λ r. seat_is_ours trip_id prefix r ≡ false) d.committed.inventory
      → let (r, d') = seed env trip_id prefix n d in
        (r ≡ ok tt)
        × ((rows : List InventoryRow) × AreFreeSeats n rows
            × (d'.committed ≡ record d.committed { inventory = rows ++ d.committed.inventory }))
  unfolding seed
  seed_lem env n d literal quiet small unused =
      let from = record d { working = d.committed } in
      let inserted = insert_seats_lem literal env n from quiet small unused in
      (
        ground (arith, quiet begin, quiet commit, inserted),
        (
          seeded_rows n,
          seeded_rows-AreFreeSeats n small,
          ground (arith, quiet begin, quiet commit, inserted),
        ),
      )

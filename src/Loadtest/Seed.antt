-- ===== src/Loadtest/Seed.antt =====
-- loadtest/src/main.rs: the seats that `main` seeds, the operations on them, and the cleanup.
use transity_terminal_resv_c.Common.{
  ℕ, zero, suc, pos, ◌+◌, ◌-◌, ◌%◌, ◌==◌, Bool, true, false, ◌&&◌, ◌||◌, Text, codes, text_eq, [],
  ◌∷◌, ◌++◌, length, Option, none, some, Result, ok, err, Action, pure, ◌>>◌, if◌then◌else◌, eqb_ℤ,
}
use transity_terminal_resv_c.Common.Std.{show_i64}
use transity_terminal_resv_c.Engine.Types.{Uuid, SqlxError, unique_violation}
use transity_terminal_resv_c.Engine.Database.{
  InventoryRow, Tables, Database, Env, seed_row, clean_holds, clean_inventory, execute_checked,
  begin_txn, commit_txn, autocommit,
}
use transity_terminal_resv_c.Engine.Database.Sql.{find_where, delete_where}
use transity_terminal_resv_c.Loadtest.{Crates, Stats, Draws, run_one}

-- `format!("LT-{}-", run_tag)`.
abbrev pub seat_prefix : Text → Text
seat_prefix run_tag = codes "LT-" ++ run_tag ++ codes "-"

unfoldable pub zeros : ℕ → Text
zeros zero = []
zeros (suc n) = 48 ∷ zeros n

-- `format!("{:04}", i)`.
unfoldable pub padded : ℕ → Text
unfolding zeros
padded i = let s = show_i64 (pos i) in zeros (4 - length s) ++ s

unfoldable pub seat_name : Text → ℕ → Text
unfolding padded
seat_name prefix i = prefix ++ padded i

unfoldable pub seeded_row : Uuid → Text → ℕ → InventoryRow
unfolding seat_name
seeded_row trip_id prefix i = record {
  trip_id = trip_id;
  seat_no = seat_name prefix i;
  leg_index = pos 1;
  booked = false;
  hold_ref = none;
}

-- The unique index of seat_inventory.
unfoldable pub same_seat : InventoryRow → InventoryRow → Bool
same_seat r s =
    s.trip_id == r.trip_id && (text_eq s.seat_no r.seat_no && eqb_ℤ s.leg_index r.leg_index)

-- INSERT INTO seat_inventory
unfoldable pub insert_seat : InventoryRow → Tables → Result SqlxError Tables
insert_seat r t = elim (find_where (same_seat r) t.inventory) [
  | none ↦ ok (record t { inventory = r ∷ t.inventory })
  | some _ ↦ err unique_violation
]

-- LIKE: a percent sign stands for any text, an underscore for any character, and a backslash takes
-- the next character as it is.
unfoldable pub any_suffix : (Text → Bool) → Text → Bool
any_suffix p [] = p []
any_suffix p (c ∷ s) = p (c ∷ s) || any_suffix p s

unfoldable pub like_char : Bool → ℕ → (Text → Bool) → Text → Bool
like_char wild c rest [] = false
like_char wild c rest (d ∷ s) = (wild || c == d) && rest s

unfoldable pub like : Text → Text → Bool
unfolding any_suffix like_char
like [] [] = true
like [] (c ∷ s) = false
like (c ∷ []) s = if c == 37 then true else like_char (c == 95) c (like []) s
like (c ∷ d ∷ p) s =
    let escaped = like_char false d (like p) s in
    let rest = like (d ∷ p) in
    if c == 37 then any_suffix rest s else if c == 92 then escaped else like_char (c == 95) c rest s

-- trip_id = $1 AND seat_no LIKE $2
unfoldable pub is_seeded : Uuid → Text → Uuid → Text → Bool
is_seeded trip_id prefix trip seat_no = trip == trip_id && like (prefix ++ codes "%") seat_no

unfoldable pub clean_seats : Uuid → Text → Tables → Tables
clean_seats trip_id prefix t = record t {
  inventory = delete_where (λ r. is_seeded trip_id prefix r.trip_id r.seat_no) t.inventory;
}

unfoldable pub clean_seat_holds : Uuid → Text → Tables → Tables
clean_seat_holds trip_id prefix t = record t {
  holds = delete_where (λ h. is_seeded trip_id prefix h.trip_id h.seat_no) t.holds;
}

module _ (env : Env) (trip_id : Uuid) (prefix : Text) where
  -- The rows of the first `n` seats.
  unfoldable pub insert_seats : ℕ → Action SqlxError Database (Unit {0})
  unfolding execute_checked insert_seat seeded_row
  insert_seats zero = pure tt
  insert_seats (suc n) = do
    insert_seats n
    execute_checked env seed_row (insert_seat (seeded_row trip_id prefix n))

  unfoldable pub seed : ℕ → Action SqlxError Database (Unit {0})
  unfolding begin_txn commit_txn insert_seats
  seed seats = do begin_txn env; insert_seats seats; commit_txn env

  unfoldable pub cleanup : Action SqlxError Database (Unit {0})
  unfolding autocommit clean_seats clean_seat_holds
  cleanup = do
    autocommit env clean_holds (clean_seat_holds trip_id prefix)
    autocommit env clean_inventory (clean_seats trip_id prefix)

module _ {W H : Type 0} (crates : Crates W H) (secret : Text) (trip_id : Uuid) (prefix : Text)
    (seats : ℕ) (scenario : Text) (draws : ℕ → Draws) where
  -- The first `ops` operations, one after the other.
  unfoldable pub run_ops : ℕ → Stats H → W → Stats H × W
  run_ops zero s w = (s, w)
  run_ops (suc i) s w =
      let (s', w') = run_ops i s w in
      run_one crates secret trip_id (seat_name prefix (i % seats)) (draws i) scenario s' w'

  -- `i % args.seats` panics without seats.
  unfoldable pub run_all : ℕ → Stats H → W → Option (Stats H × W)
  unfolding run_ops
  run_all zero s w = some (s, w)
  run_all (suc i) s w = if seats == 0 then none else some (run_ops (suc i) s w)

-- `s.ok + s.conflict + s.errors`.
unfoldable pub total : {H : Type 0} → Stats H → ℕ
total s = s.held + s.conflict + s.errors

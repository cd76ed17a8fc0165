-- ===== src/Engine/Interleaved.antt =====
-- Transactions that overlap in time, as steps. `SELECT … FOR UPDATE` of hold.rs, confirm.rs and
-- release.rs takes the locks of its rows and the transaction makes its checks; the writes with the
-- commit, or the rollback, come later.
pub mod Select
pub mod Checked
pub mod Keep
pub mod Safe
pub mod Serial
pub mod Purge
pub mod Skip
use transity_terminal_resv_c.Common.{
  ℕ, ℤ, ◌≡◌, ◌==◌, Bool, true, false, ◌&&◌, ◌+ℤ◌, Text, text_eq, any, eqb_ℤ, List, [], ◌∷◌, ◌++◌,
  All, length, Option, none, some,
}
use transity_terminal_resv_c.Engine.Types.{Uuid, SeatHoldRequest, as_str, seconds}
use transity_terminal_resv_c.Engine.Events.{Publisher}
use transity_terminal_resv_c.Engine.Database.{InventoryRow, HoldRow, Tables, Call, Env, World}
use transity_terminal_resv_c.Engine.Database.Sql.{select_where, find_where}
use transity_terminal_resv_c.Engine.Database.Where.{at_seat, has_ref}
use transity_terminal_resv_c.Engine.Hold.{inventory_rows, is_taken}
use transity_terminal_resv_c.Engine.Hold.Outcome.{held_tables}
use transity_terminal_resv_c.Engine.Confirm.Outcome.{confirmed_tables, Confirmable}
use transity_terminal_resv_c.Engine.Release.{active_hold}
use transity_terminal_resv_c.Engine.Release.Outcome.{released_tables}
use transity_terminal_resv_c.Engine.System.{
  Operation, hold, confirm, cancel, release, expire, perform,
}
use transity_terminal_resv_c.Engine.System.Keys.{seat_keys}

-- A transaction: what the world supplies to it, and its operation.
abbrev pub Txn : Type 0
Txn = Env × Operation

-- The request whose rows of seat_inventory it locks, and the ref whose row of seat_holds.
abbrev pub seats_of : Operation → Option SeatHoldRequest
seats_of (hold req _) = some req
seats_of _ = none

abbrev pub ref_of : Operation → Option Text
ref_of (confirm hold_ref _) = some hold_ref
ref_of (release hold_ref) = some hold_ref
ref_of _ = none

abbrev pub locks_row : SeatHoldRequest → InventoryRow → Bool
locks_row req = at_seat req.trip_id req.seat_no req.leg_indexes

abbrev pub locks_key : SeatHoldRequest → Uuid × Text × ℤ → Bool
locks_key req (trip_id, seat_no, leg) =
    trip_id == req.trip_id && (text_eq seat_no req.seat_no && any (eqb_ℤ leg) req.leg_indexes)

-- No row is locked by both.
abbrev pub Disjoint : Tables → SeatHoldRequest → SeatHoldRequest → Type 0
Disjoint t a b = All (λ k. locks_key a k ≡ true → locks_key b k ≡ false) (seat_keys t)

abbrev pub SeatsApart : Tables → Option SeatHoldRequest → Option SeatHoldRequest → Type 0
SeatsApart t (some a) (some b) = Disjoint t a b × Disjoint t b a
SeatsApart t _ _ = Unit

abbrev pub RefsApart : Option Text → Option Text → Type 0
RefsApart (some r) (some s) = (text_eq r s ≡ false) × (text_eq s r ≡ false)
RefsApart _ _ = Unit

abbrev pub Apart : Tables → Txn → Txn → Type 0
Apart t (_, a) (_, b) = SeatsApart t (seats_of a) (seats_of b) × RefsApart (ref_of a) (ref_of b)

abbrev pub rows_of : SeatHoldRequest → Tables → List InventoryRow
rows_of req = inventory_rows req.trip_id req.seat_no req.leg_indexes

-- The two checks of a hold on the rows that were read.
pub record HoldChecked (t : Tables) (req : SeatHoldRequest) : Type 0 where
  pub complete : length (rows_of req t) ≡ length req.leg_indexes
  pub untaken : any is_taken (rows_of req t) ≡ false

-- What a transaction has found when it goes on to its writes. Cancellations and reaper runs do not
-- stop between their locks and their writes.
abbrev pub IsChecked : Tables → Txn → Type 0
IsChecked t (_, hold req _) = HoldChecked t req
IsChecked t (env, confirm hold_ref _) = (row : HoldRow) × Confirmable env hold_ref t row
IsChecked t (_, release hold_ref) = (row : HoldRow) × (active_hold hold_ref t ≡ some row)
IsChecked t (_, cancel _ _ _) = ⊥
IsChecked t (_, expire _) = ⊥

-- The UNIQUE constraint that the INSERT of a hold meets.
abbrev pub IsFresh : Tables → Txn → Type 0
IsFresh t (env, hold _ _) = find_where (has_ref (env.uuid_string env.new_uuid)) t.holds ≡ none
IsFresh t _ = Unit

-- What its writes make of the tables.
abbrev pub effect : Txn → Tables → Tables
effect (env, hold req ttl_seconds) =
    held_tables req.trip_id req.seat_no req.leg_indexes req.operator_id (as_str req.ttl_class)
      (env.uuid_string env.new_uuid) (env.app_now +ℤ seconds ttl_seconds)
effect (_, confirm hold_ref booking_id) = confirmed_tables hold_ref booking_id
effect (_, release hold_ref) = released_tables hold_ref
effect (_, cancel _ _ _) = λ t. t
effect (_, expire _) = λ t. t

-- The rows that a transaction has locked are the same.
abbrev pub SeatsSame : Tables → Tables → Option SeatHoldRequest → Type 0
SeatsSame t t' none = Unit
SeatsSame t t' (some req) =
    select_where (locks_row req) t'.inventory ≡ select_where (locks_row req) t.inventory

abbrev pub RefSame : Tables → Tables → Option Text → Type 0
RefSame t t' none = Unit
RefSame t t' (some r) = select_where (has_ref r) t'.holds ≡ select_where (has_ref r) t.holds

abbrev pub Untouched : Tables → Tables → Txn → Type 0
Untouched t t' (_, op) = SeatsSame t t' (seats_of op) × RefSame t t' (ref_of op)

-- The committed tables, the transactions that have their locks, and what was committed, the last first.
pub record Shared : Type 0 where
  pub tables : Tables
  pub holders : List Txn
  pub log : List Txn

-- A transaction waits for the locks of others. An operation that does not stop at a lock in between
-- is one step, which leaves the rows alone that others have locked.
pub data Step {S : Type 0} (publisher : Publisher S) : Shared → Shared → Type 0 where
  locks :
      (t : Tables) (holders log : List Txn) (x : Txn)
      → All (Apart t x) holders
      → IsChecked t x
      → Step publisher
          (record { tables = t; holders = holders; log = log })
          (record { tables = t; holders = x ∷ holders; log = log })
  rolls_back :
      (t : Tables) (before after log : List Txn) (x : Txn)
      → Step publisher
          (record { tables = t; holders = before ++ x ∷ after; log = log })
          (record { tables = t; holders = before ++ after; log = log })
  commits :
      (t : Tables) (before after log : List Txn) (x : Txn)
      → ((c : Call) → x.0.fails c ≡ false)
      → IsFresh t x
      → Step publisher
          (record { tables = t; holders = before ++ x ∷ after; log = log })
          (record { tables = effect x t; holders = before ++ after; log = x ∷ log })
  alone :
      (t t' : Tables) (holders log : List Txn) (env : Env) (op : Operation) (w : World S)
      → w.database.committed ≡ t
      → (perform publisher env op w).database.committed ≡ t'
      → All (Untouched t t') holders
      → Step publisher
          (record { tables = t; holders = holders; log = log })
          (record { tables = t'; holders = holders; log = (env, op) ∷ log })

-- What can come of a start without open transactions.
pub data Reachable {S : Type 0} (publisher : Publisher S) (start : Tables) : Shared → Type 0 where
  started : Reachable publisher start (record { tables = start; holders = []; log = [] })
  then_step :
      (s s' : Shared)
      → Reachable publisher start s
      → Step publisher s s'
      → Reachable publisher start s'

-- The operations of a log, which has the last first, each run by itself on the tables that the one
-- before it left.
pub data SerialRun {S : Type 0} (publisher : Publisher S) (start : Tables)
    : List Txn → Tables → Type 0 where
  begun : SerialRun publisher start [] start
  then_run :
      (t t' : Tables) (log : List Txn) (env : Env) (op : Operation) (w : World S)
      → SerialRun publisher start log t
      → w.database.committed ≡ t
      → (perform publisher env op w).database.committed ≡ t'
      → SerialRun publisher start ((env, op) ∷ log) t'

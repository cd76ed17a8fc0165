-- ===== src/Engine/Types.antt =====
-- types.rs and error.rs: the data that the operations take and return.
-- An instant is a number of microseconds, the resolution of Postgres; a `Uuid` is its number.
use transity_terminal_resv_c.Common.{ℕ, ℤ, pos, ◌*ℤ◌, Bool, true, false, Text, codes, List, Option}

abbrev pub Uuid : Type 0
Uuid = ℕ

abbrev pub Instant : Type 0
Instant = ℤ

-- `Duration::seconds` and `Duration::days`.
unfoldable pub seconds : ℤ → ℤ
seconds n = n *ℤ pos 1_000_000

unfoldable pub days : ℤ → ℤ
unfolding seconds
days n = seconds (n *ℤ pos 86_400)

pub data TtlClass : Type 0 where
  short long : TtlClass

unfoldable pub default_seconds : TtlClass → ℤ
default_seconds short = pos 300
default_seconds long = pos 1800

unfoldable pub as_str : TtlClass → Text
as_str short = codes "short"
as_str long = codes "long"

pub record SeatHoldRequest : Type 0 where
  pub trip_id : Uuid
  pub seat_no : Text
  pub leg_indexes : List ℤ
  pub operator_id : Text
  pub ttl_class : TtlClass

pub data HoldFailureReason : Type 0 where
  incomplete_inventory seat_conflict transaction_error : HoldFailureReason

-- The first field of each variant is its `success` flag.
pub data AtomicHoldResult : Type 0 where
  success : Bool → Uuid → Instant → AtomicHoldResult
  failure : Bool → HoldFailureReason → List Text → AtomicHoldResult

-- `AtomicHoldResult::success` and `AtomicHoldResult::failure`, the functions.
unfoldable pub new_success : Uuid → Instant → AtomicHoldResult
new_success hold_ref expires_at = success true hold_ref expires_at

unfoldable pub new_failure : HoldFailureReason → List Text → AtomicHoldResult
new_failure reason conflict_seats = failure false reason conflict_seats

unfoldable pub is_success : AtomicHoldResult → Bool
is_success (success _ _ _) = true
is_success (failure _ _ _) = false

pub record ReleaseResult : Type 0 where
  pub success : Bool

pub record ConfirmResult : Type 0 where
  pub success : Bool
  pub conflict : Option Text

pub record CancelResult : Type 0 where
  pub success : Bool

pub record ReaperResult : Type 0 where
  pub released_count : ℕ

pub data SeatStatusKind : Type 0 where
  free held booked : SeatStatusKind

pub record LegState : Type 0 where
  pub leg_index : ℤ
  pub status : SeatStatusKind
  pub hold_expires_at : Option Instant

pub record SeatState : Type 0 where
  pub seat_no : Text
  pub leg_states : List LegState

pub record InventorySnapshot : Type 0 where
  pub trip_id : Uuid
  pub seats : List SeatState

-- What a statement of `sqlx` can fail with, as far as the engine can tell the cases apart.
pub data SqlxError : Type 0 where
  call_failed unique_violation : SqlxError

-- The texts stand for the wrapped errors of the libraries.
pub data EngineError : Type 0 where
  db : SqlxError → EngineError
  redis : Text → EngineError
  redis_pool : Text → EngineError
  serde : Text → EngineError
  hold_expired_or_missing : EngineError
  internal : Text → EngineError

-- ===== src/Engine/Database.antt =====
-- The tables of migrations/0001_init.sql and 0002_idempotency_cache.sql, one connection to them,
-- and the calls of `sqlx` that the engine makes: each may fail, and nothing that a transaction
-- writes is seen before its `commit`.
pub mod Sql
pub mod Where
use transity_terminal_resv_c.Common.{
  ℕ, ℤ, Bool, true, false, Text, List, [], Option, none, some, Result, ok, err, Action, pure,
  if◌then◌else◌, ◌>>=◌,
}
use transity_terminal_resv_c.Engine.Types.{Uuid, Instant, SqlxError, call_failed}

-- The column `id`, which no statement of the engine uses, is left out, as is `created_at`.
pub record InventoryRow : Type 0 where
  pub trip_id : Uuid
  pub seat_no : Text
  pub leg_index : ℤ
  pub booked : Bool
  pub hold_ref : Option Text

pub record HoldRow : Type 0 where
  pub hold_ref : Text
  pub trip_id : Uuid
  pub seat_no : Text
  pub leg_indexes : List ℤ
  pub ttl_class : Text
  pub operator_id : Text
  pub booking_id : Option Text
  pub expires_at : Instant

pub record CacheRow : Type 0 where
  pub key : Text
  pub body_hash : Text
  pub status_code : ℤ
  pub response_body : List ℕ
  pub expires_at : Instant

pub record Tables : Type 0 where
  pub inventory : List InventoryRow
  pub holds : List HoldRow
  pub cache : List CacheRow

-- A session-level advisory lock: who has it, and how often it was taken.
pub data AdvisoryLock : Type 0 where
  unlocked : AdvisoryLock
  locked_by : ℕ → ℕ → AdvisoryLock

pub record Database : Type 0 where
  pub committed : Tables
  pub working : Tables
  pub reaper_lock : AdvisoryLock

-- The database calls of one operation; the last line is that of the load test.
pub data Call : Type 0 where
  acquire begin commit : Call
  select_rows select_hold lock_rows update_inventory update_hold insert_hold delete_hold : Call
  try_lock unlock purge select_expired : Call
  cache_get cache_put cache_sweep : Call
  seed_row clean_holds clean_inventory : Call

-- What the world supplies to one operation: the clocks, the calls that fail, a fresh uuid and its
-- text, the session, and the hold rows that other transactions have locked.
pub record Env : Type 0 where
  pub app_now : Instant
  pub event_now : Instant
  pub db_now : Instant
  pub fails : Call → Bool
  pub new_uuid : Uuid
  pub uuid_string : Uuid → Text
  pub session : ℕ
  pub row_locked : Text → Bool

-- A call that fails has no effect.
abbrev pub attempt : {S A : Type 0} → Bool → Action SqlxError S A → Action SqlxError S A
attempt true f s = (err call_failed, s)
attempt false f s = f s

module _ (env : Env) where
  module _ {A : Type 0} where
    unfoldable pub call : Call → Action SqlxError Database A → Action SqlxError Database A
    call c f d = attempt (env.fails c) f d

    -- A statement of a transaction that reads.
    unfoldable pub fetch : Call → (Tables → A) → Action SqlxError Database A
    unfolding call
    fetch c q = call c λ d. (ok (q d.working), d)

  -- A statement of a transaction that writes.
  unfoldable pub execute : Call → (Tables → Tables) → Action SqlxError Database (Unit {0})
  unfolding call
  execute c f = call c λ d. (ok tt, record d { working = f d.working })

  -- One that a constraint may refuse.
  unfoldable pub execute_checked :
      Call → (Tables → Result SqlxError Tables) → Action SqlxError Database (Unit {0})
  unfolding call
  execute_checked c f =
      call c
        λ d. elim (f d.working) [ ok t ↦ (ok tt, record d { working = t }) | err e ↦ (err e, d) ]

  -- `begin` sees what is committed; what is not committed is dropped with the transaction.
  unfoldable pub begin_txn : Action SqlxError Database (Unit {0})
  unfolding call
  begin_txn = call begin λ d. (ok tt, record d { working = d.committed })

  unfoldable pub commit_txn : Action SqlxError Database (Unit {0})
  unfolding call
  commit_txn = call commit λ d. (ok tt, record d { committed = d.working })

  -- A statement outside a transaction commits by itself.
  unfoldable pub autocommit : Call → (Tables → Tables) → Action SqlxError Database (Unit {0})
  unfolding call
  autocommit c f = call c λ d. (ok tt, record d { committed = f d.committed })

-- An operation runs over the database and the state of its publisher.
pub record World (S : Type 0) : Type 0 where
  pub database : Database
  pub bus : S

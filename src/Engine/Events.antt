-- ===== src/Engine/Events.antt =====
-- events.rs: the events, the trait `EventPublisher`, its implementations and the release pair.
use transity_terminal_resv_c.Common.{
  Bool, Text, List, [], ◌∷◌, ◌++◌, ℤ, ok, err, codes, Result, Action, ◌>>◌, if◌then◌else◌,
}
use transity_terminal_resv_c.Engine.Types.{Uuid, Instant, EngineError, serde}

-- `ts` is the instant that the source prints by `to_rfc3339`.
pub data ReservationEvent : Type 0 where
  inventory_updated : Uuid → Text → List ℤ → Instant → ReservationEvent
  holds_released : Uuid → List Text → Instant → ReservationEvent

-- The trait, over whatever state a publisher keeps.
pub record Publisher (S : Type 0) : Type 0 where
  pub publish : ReservationEvent → Action EngineError S (Unit {0})

-- `NoopPublisher`.
abbrev pub noop_publisher : Publisher (Unit {0})
noop_publisher = record { publish = λ event s. (ok tt, s) }

abbrev pub channel : Text
channel = codes "reservation.events"

-- What `RedisPublisher` uses of serde_json and of the Redis pool, whose state is `S`: a connection,
-- and a PUBLISH on it, whose failure is logged and dropped.
pub record RedisPool (S : Type 0) : Type 0 where
  pub to_string : ReservationEvent → Result Text Text
  pub connects : S → Bool
  pub send : Text → Text → S → S

module _ {S : Type 0} (pool : RedisPool S) where
  unfoldable pub send_payload : Result Text Text → Action EngineError S (Unit {0})
  send_payload (err e) s = (err (serde e), s)
  send_payload (ok payload) s = (ok tt, if pool.connects s then pool.send channel payload s else s)

  -- `RedisPublisher`.
  unfoldable pub redis_publisher : Publisher S
  unfolding send_payload
  redis_publisher = record { publish = λ event s. send_payload (pool.to_string event) s }

-- A publisher that keeps what it is handed, as the parity tests do.
abbrev pub recording_publisher : Publisher (List ReservationEvent)
recording_publisher = record { publish = λ event s. (ok tt, s ++ event ∷ []) }

module _ {S : Type 0} (p : Publisher S) where
  -- `let _ = publisher.publish(&evt).await`: the result is dropped.
  unfoldable pub publish_best_effort : ReservationEvent → S → S
  publish_best_effort event s = (p.publish event s).1

  unfoldable pub emit_release_pair :
      Uuid → Text → List ℤ → Instant → Action EngineError S (Unit {0})
  emit_release_pair trip_id seat_no leg_indexes ts = do
    p.publish (inventory_updated trip_id seat_no leg_indexes ts)
    p.publish (holds_released trip_id (seat_no ∷ []) ts)
    λ s. (ok tt, s)

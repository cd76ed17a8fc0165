-- ===== src/Loadtest/Network/Tables.antt =====
-- The tables between a hold and its release, where the cache has changed.
use transity_terminal_resv_c.Common.{ℤ, ◌≡◌, ap, ◌∙◌, ◌+ℤ◌, true, Text, List, some, inl, inr}
use transity_terminal_resv_c.Engine.Types.{Uuid, SeatHoldRequest, seconds}
use transity_terminal_resv_c.Engine.Events.{Publisher}
use transity_terminal_resv_c.Engine.Database.{CacheRow, Tables, Env, World}
use transity_terminal_resv_c.Engine.Hold.{atomic_hold, new_hold, inventory_rows, mark_inventory}
use transity_terminal_resv_c.Engine.Hold.Outcome.{
  succeeded, held_tables, HoldAllowed, atomic_hold_cases, Allowed, held_by_request,
}
use transity_terminal_resv_c.Engine.Release.{active_hold}
use transity_terminal_resv_c.Engine.Release.Outcome.{released_tables}
use transity_terminal_resv_c.Engine.Invariant.{IsConsistent}
use transity_terminal_resv_c.Engine.Lifecycle.HoldRelease.{released-held, active_hold-held}

-- What a hold that succeeds has found, and what it leaves.
pub hold_won :
    {S : Type 0} (publisher : Publisher S) (env : Env) (req : SeatHoldRequest) (ttl : ℤ)
    (w : World S)
    → succeeded (atomic_hold env publisher req ttl w).0 ≡ true
    → Allowed publisher env req (env.app_now +ℤ seconds ttl) w.database.committed
      × ((atomic_hold env publisher req ttl w).1.database.committed
          ≡ held_by_request publisher env req (env.app_now +ℤ seconds ttl) w.database.committed)
hold_won publisher env req ttl w won = elim (atomic_hold_cases publisher env req ttl w) [
  | inl (lost, _) ↦ cc
  | inr (_, allowed, e) ↦ (allowed, e)
]

-- The cache plays no part in a hold and its release.
module _ (trip : Uuid) (seat_no : Text) (legs : List ℤ) (operator_id ttl_class ref : Text)
    (expires_at : ℤ) (t t1 : Tables) (cache : List CacheRow)
    (marked : t1 ≡ record (held_tables trip seat_no legs operator_id ttl_class ref expires_at t) {
      cache = cache;
    }) where
  held_with_cache :
      t1
      ≡ held_tables trip seat_no legs operator_id ttl_class ref expires_at
          (record t { cache = cache })
  unfolding mark_inventory
  held_with_cache = marked

  pub found_held :
      active_hold ref t1 ≡ some (new_hold trip seat_no legs operator_id ttl_class ref expires_at)
  found_held =
      ap (active_hold ref) held_with_cache
      ∙ active_hold-held trip seat_no legs operator_id ttl_class ref expires_at
          (record t { cache = cache })

  allowed_with_cache :
      HoldAllowed trip seat_no legs operator_id ttl_class ref expires_at t
      → HoldAllowed trip seat_no legs operator_id ttl_class ref expires_at
          (record t { cache = cache })
  unfolding inventory_rows
  allowed_with_cache h = record { complete = h.complete; untaken = h.untaken; fresh = h.fresh }

  pub released_again :
      HoldAllowed trip seat_no legs operator_id ttl_class ref expires_at t
      → IsConsistent t
      → released_tables ref t1 ≡ record t { cache = cache }
  released_again h c =
      ap (released_tables ref) held_with_cache
      ∙ released-held trip seat_no legs operator_id ttl_class ref expires_at
          (record t { cache = cache }) (allowed_with_cache h)
          (record { distinct = c.distinct; owned = c.owned })

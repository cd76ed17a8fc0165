-- ===== src/Engine/System/Keys.antt =====
-- The rows of seat_inventory, and the cache, over the steps of the operations.
use transity_terminal_resv_c.Common.{
  ℤ, ◌≡◌, refl, ap, ◌∙◌, inl, inr, Bool-cases, Text, List, [], ◌∷◌, map, Result, ok, err,
}
use transity_terminal_resv_c.Engine.Types.{Uuid, SqlxError}
use transity_terminal_resv_c.Engine.Events.{Publisher}
use transity_terminal_resv_c.Engine.Database.{InventoryRow, HoldRow, Tables, Env, World}
use transity_terminal_resv_c.Engine.Database.Sql.Laws.{map-update_where}
use transity_terminal_resv_c.Engine.Hold.{mark_inventory}
use transity_terminal_resv_c.Engine.Confirm.{book_inventory, consume_hold}
use transity_terminal_resv_c.Engine.Cancel.{free_seat}
use transity_terminal_resv_c.Engine.Release.{unmark_inventory, delete_hold_row}
use transity_terminal_resv_c.Engine.Reaper.{
  purge_enabled, purge_confirmed, unmark_expired, delete_expired,
}
use transity_terminal_resv_c.Engine.Reaper.Outcome.{purged_tables, Reaps}
use transity_terminal_resv_c.Engine.System.{Operation, perform, perform_all}
use transity_terminal_resv_c.Engine.System.Committed.{
  Commits, unchanged, held, confirmed, freed, released, reaped, perform-Commits,
}

-- The columns of the table's unique index.
abbrev pub seat_key : InventoryRow → Uuid × Text × ℤ
seat_key r = (r.trip_id, r.seat_no, r.leg_index)

abbrev pub seat_keys : Tables → List (Uuid × Text × ℤ)
seat_keys t = map seat_key t.inventory

purged-seat_keys :
    (env : Env) (retention_days : ℤ) (t : Tables)
    → seat_keys (purged_tables env retention_days t) ≡ seat_keys t
unfolding purge_confirmed
purged-seat_keys env retention_days t = elim (Bool-cases (purge_enabled retention_days)) [
  | inl on ↦ rw on refl
  | inr off ↦ rw off refl
]

Reaps-seat_keys :
    (env : Env) (retention_days : ℤ) (t t' : Tables) (r : Result SqlxError (List HoldRow))
    → Reaps env retention_days t t' r
    → seat_keys t' ≡ seat_keys t
unfolding unmark_expired delete_expired
Reaps-seat_keys env retention_days t t' (ok rows) (_, e) = rw e (
    map-update_where {0, 0, 0} seat_key _ _ (λ r. refl)
      (purged_tables env retention_days t).inventory
    ∙ purged-seat_keys env retention_days t)
Reaps-seat_keys env retention_days t t' (err _) (inl e) = rw e refl
Reaps-seat_keys env retention_days t t' (err _) (inr e) =
    rw e (purged-seat_keys env retention_days t)

pub Commits-seat_keys :
    {env : Env} {op : Operation} {t t' : Tables} → Commits env op t t' → seat_keys t' ≡ seat_keys t
unfolding mark_inventory book_inventory consume_hold free_seat unmark_inventory delete_hold_row
Commits-seat_keys unchanged = refl
Commits-seat_keys {t} (held _ _ _ _ _ _ _ _) =
    map-update_where {0, 0, 0} seat_key _ _ (λ r. refl) t.inventory
Commits-seat_keys {t} (confirmed _ _ _ _) =
    map-update_where {0, 0, 0} seat_key _ _ (λ r. refl) t.inventory
Commits-seat_keys {t} (freed _ _ _ _) =
    map-update_where {0, 0, 0} seat_key _ _ (λ r. refl) t.inventory
Commits-seat_keys {t} (released _ _ _) =
    map-update_where {0, 0, 0} seat_key _ _ (λ r. refl) t.inventory
Commits-seat_keys {env} {t} (reaped retention_days r t' h) =
    Reaps-seat_keys env retention_days t t' r h

-- Whatever the operations and their failures, the rows of seat_inventory stay the same seats and
-- legs, in the same order.
pub seat_keys-perform_all :
    {S : Type 0} (publisher : Publisher S) (ops : List (Env × Operation)) (w : World S)
    → seat_keys (perform_all publisher ops w).database.committed ≡ seat_keys w.database.committed
unfolding perform_all
seat_keys-perform_all publisher [] w = refl
seat_keys-perform_all publisher ((env, op) ∷ ops) w =
    seat_keys-perform_all publisher ops (perform publisher env op w)
    ∙ Commits-seat_keys (perform-Commits publisher env op w)

purged-cache :
    (env : Env) (retention_days : ℤ) (t : Tables)
    → (purged_tables env retention_days t).cache ≡ t.cache
unfolding purge_confirmed
purged-cache env retention_days t = elim (Bool-cases (purge_enabled retention_days)) [
  | inl on ↦ rw on refl
  | inr off ↦ rw off refl
]

Reaps-cache :
    (env : Env) (retention_days : ℤ) (t t' : Tables) (r : Result SqlxError (List HoldRow))
    → Reaps env retention_days t t' r
    → t'.cache ≡ t.cache
unfolding unmark_expired delete_expired
Reaps-cache env retention_days t t' (ok rows) (_, e) =
    ap (λ (x : Tables). x.cache) e ∙ purged-cache env retention_days t
Reaps-cache env retention_days t t' (err _) (inl e) = ap (λ (x : Tables). x.cache) e
Reaps-cache env retention_days t t' (err _) (inr e) =
    ap (λ (x : Tables). x.cache) e ∙ purged-cache env retention_days t

Commits-cache :
    {env : Env} {op : Operation} {t t' : Tables} → Commits env op t t' → t'.cache ≡ t.cache
unfolding mark_inventory book_inventory consume_hold free_seat unmark_inventory delete_hold_row
Commits-cache unchanged = refl
Commits-cache (held _ _ _ _ _ _ _ _) = refl
Commits-cache (confirmed _ _ _ _) = refl
Commits-cache (freed _ _ _ _) = refl
Commits-cache (released _ _ _) = refl
Commits-cache {env} {t} (reaped retention_days r t' h) = Reaps-cache env retention_days t t' r h

pub perform-cache :
    {S : Type 0} (publisher : Publisher S) (env : Env) (op : Operation) (w : World S)
    → (perform publisher env op w).database.committed.cache ≡ w.database.committed.cache
perform-cache publisher env op w = Commits-cache (perform-Commits publisher env op w)

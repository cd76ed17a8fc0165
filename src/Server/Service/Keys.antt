-- ===== src/Server/Service/Keys.antt =====
-- The cache keeps one row per key.
use mathlib.Core.Path.{subst}
use transity_terminal_resv_c.Common.{
  ◌≡◌, refl, ap, ◌+ℤ◌, Text, text_eq, List, [], ◌∷◌, Option, none, some, arith, inl, inr,
  Bool-cases,
}
use transity_terminal_resv_c.Engine.Types.{Instant, seconds}
use transity_terminal_resv_c.Engine.Database.{CacheRow, Database, Env}
use transity_terminal_resv_c.Engine.Database.Sql.{find_where, update_where}
use transity_terminal_resv_c.Server.Store.{
  idempotency_ttl, CachedResponse, has_key, is_stale, new_row, upsert_over, upsert, put,
  sweep_expired,
}
use transity_terminal_resv_c.Server.Store.Laws.{HasDistinctKeys, has_key-eq, sweep-HasDistinctKeys}

same_key : (key : Text) (r s : CacheRow) → r.key ≡ s.key → has_key key r ≡ has_key key s
unfolding has_key
same_key key r s e = ap (λ k. text_eq k key) e

-- A row that is replaced by one with its key.
absent_after_update :
    (key : Text) (row : CacheRow) (rows : List CacheRow)
    → find_where (has_key key) rows ≡ none
    → find_where (has_key key) (update_where (has_key row.key) (λ _. row) rows) ≡ none
unfolding find_where update_where
absent_after_update key row [] e = refl
absent_after_update key row (r ∷ rs) e = elim (Bool-cases (has_key row.key r)) [
  | inl hit ↦
      let same = same_key key r row (has_key-eq row.key r hit) in
      ground (arith, hit, same, absent_after_update key row rs)
  | inr miss ↦ ground (arith, miss, absent_after_update key row rs)
]

update-HasDistinctKeys :
    (row : CacheRow) (rows : List CacheRow)
    → HasDistinctKeys rows
    → HasDistinctKeys (update_where (has_key row.key) (λ _. row) rows)
unfolding update_where
update-HasDistinctKeys row [] d = tt
update-HasDistinctKeys row (r ∷ rs) d = elim (Bool-cases (has_key row.key r)) [
  | inl hit ↦ rw hit (
    absent_after_update row.key row rs
        (subst (λ k. find_where (has_key k) rs ≡ none) (has_key-eq row.key r hit) d.0),
    update-HasDistinctKeys row rs d.1,
  )
  | inr miss ↦ rw miss (absent_after_update r.key row rs d.0, update-HasDistinctKeys row rs d.1)
]

upsert-HasDistinctKeys :
    (now : Instant) (row : CacheRow) (rows : List CacheRow)
    → HasDistinctKeys rows
    → HasDistinctKeys (upsert now row rows).1
unfolding upsert
upsert-HasDistinctKeys now row rows d = go (find_where (has_key row.key) rows) refl
  where
    go :
        (o : Option CacheRow)
        → find_where (has_key row.key) rows ≡ o
        → HasDistinctKeys (upsert_over now row rows o).1
    go none e = (e, d)
    go (some old) e = elim (Bool-cases (is_stale now old)) [
      | inl stale ↦ rw stale (update-HasDistinctKeys row rows d)
      | inr active ↦ rw active d
    ]

pub put-HasDistinctKeys :
    (env : Env) (key : Text) (c : CachedResponse) (d : Database)
    → HasDistinctKeys d.committed.cache
    → HasDistinctKeys (put env key c d).1.committed.cache
unfolding put new_row
put-HasDistinctKeys env key c d distinct = ground (
  arith,
  upsert-HasDistinctKeys env.db_now (new_row key c (env.app_now +ℤ seconds idempotency_ttl))
      d.committed.cache distinct,
)

pub sweep_expired-HasDistinctKeys :
    (env : Env) (d : Database)
    → HasDistinctKeys d.committed.cache
    → HasDistinctKeys (sweep_expired env d).1.committed.cache
unfolding sweep_expired
sweep_expired-HasDistinctKeys env d distinct =
    ground (arith, sweep-HasDistinctKeys env.db_now d.committed.cache distinct)

pub sweep_expired-rows :
    (env : Env) (d : Database)
    → ((sweep_expired env d).1.committed.inventory ≡ d.committed.inventory)
      × ((sweep_expired env d).1.committed.holds ≡ d.committed.holds)
unfolding sweep_expired
sweep_expired-rows env d = ground arith

-- ===== src/Server/Store/Laws.antt =====
-- What is read back from the cache after a write and after a sweep.
use mathlib.Core.Path.{subst}
use transity_terminal_resv_c.Common.{
  ◌+ℤ◌, ◌<◌, ◌^◌, ◌≡◌, refl, ◌≤ℤ◌, ◌<ℤ◌, true, false, not, Text, text_eq_iff, text_eq_refl, List,
  [], ◌∷◌, Option, none, some, is_none, ok, arith, inl, inr, Bool-cases, if◌then◌else◌,
}
use transity_terminal_resv_c.Common.Std.{to_u16}
use transity_terminal_resv_c.Engine.Types.{Instant, seconds}
use transity_terminal_resv_c.Engine.Database.{
  CacheRow, Database, Env, cache_get, cache_put, cache_sweep,
}
use transity_terminal_resv_c.Engine.Database.Sql.{find_where, update_where, delete_where}
use transity_terminal_resv_c.Server.Store.{
  idempotency_ttl, CachedResponse, has_key, is_stale, is_fresh, to_cached, lookup, new_row,
  upsert_over, upsert, get, put, sweep_expired,
}

-- The primary key.
abbrev pub HasDistinctKeys : List CacheRow → Type 0
HasDistinctKeys [] = Unit
HasDistinctKeys (r ∷ rs) = (find_where (has_key r.key) rs ≡ none) × HasDistinctKeys rs

pub has_key-eq : (key : Text) (r : CacheRow) → has_key key r ≡ true → r.key ≡ key
unfolding has_key
has_key-eq key r e = (text_eq_iff r.key key).0 e

stale_not_fresh : (now : Instant) (r : CacheRow) → is_fresh now r ≡ not (is_stale now r)
unfolding is_fresh is_stale
stale_not_fresh now r = ground arith

lookup_absent :
    (key : Text) (now : Instant) (rows : List CacheRow)
    → find_where (has_key key) rows ≡ none
    → lookup key now rows ≡ none
unfolding lookup find_where
lookup_absent key now [] e = refl
lookup_absent key now (r ∷ rs) e = ground (arith, lookup_absent key now rs)

-- With distinct keys a lookup finds the row of the key, if it is fresh.
lookup_found :
    (key : Text) (now : Instant) (rows : List CacheRow) (old : CacheRow)
    → HasDistinctKeys rows
    → find_where (has_key key) rows ≡ some old
    → lookup key now rows ≡ (if is_stale now old then none else some old)
unfolding lookup find_where
lookup_found key now [] old d e = cc
lookup_found key now (r ∷ rs) old d e = elim (Bool-cases (has_key key r)) [
  | inl hit ↦ ground (
    arith,
    stale_not_fresh now r,
    lookup_absent key now rs
        (subst (λ k. find_where (has_key k) rs ≡ none) (has_key-eq key r hit) d.0),
  )
  | inr miss ↦ ground (arith, lookup_found key now rs old d.1)
]

own_key : (row : CacheRow) → has_key row.key row ≡ true
unfolding has_key
own_key row = text_eq_refl row.key

lookup-update_where :
    (later : Instant) (row old : CacheRow) (rows : List CacheRow)
    → is_fresh later row ≡ true
    → find_where (has_key row.key) rows ≡ some old
    → lookup row.key later (update_where (has_key row.key) (λ _. row) rows) ≡ some row
unfolding lookup find_where update_where
lookup-update_where later row old [] fresh e = cc
lookup-update_where later row old (r ∷ rs) fresh e =
    ground (arith, own_key row, lookup-update_where later row old rs fresh)

lookup_new :
    (later : Instant) (row : CacheRow) (rows : List CacheRow)
    → is_fresh later row ≡ true
    → lookup row.key later (row ∷ rows) ≡ some row
unfolding lookup find_where
lookup_new later row rows fresh = ground (arith, own_key row)

-- A row is written unless the key has an active one, and is then the one that is found.
pub lookup-upsert :
    (now later : Instant) (row : CacheRow) (rows : List CacheRow)
    → HasDistinctKeys rows
    → is_fresh later row ≡ true
    → ((upsert now row rows).0 ≡ is_none (lookup row.key now rows))
      × (lookup row.key later (upsert now row rows).1
          ≡ (if is_none (lookup row.key now rows) then some row else lookup row.key later rows))
unfolding upsert
lookup-upsert now later row rows d fresh = go (find_where (has_key row.key) rows) refl
  where
    go :
        (o : Option CacheRow)
        → find_where (has_key row.key) rows ≡ o
        → ((upsert_over now row rows o).0 ≡ is_none (lookup row.key now rows))
          × (lookup row.key later (upsert_over now row rows o).1
              ≡ (if is_none (lookup row.key now rows) then some row else lookup row.key later rows))
    go none e = rw (lookup_absent row.key now rows e) (refl, lookup_new later row rows fresh)
    go (some old) e = elim (Bool-cases (is_stale now old)) [
      | inl stale ↦
          rw (lookup_found row.key now rows old d e, stale)
            (refl, lookup-update_where later row old rows fresh e)
      | inr active ↦ rw (lookup_found row.key now rows old d e, active) (refl, refl)
    ]

same_status :
    (key : Text) (value : CachedResponse) (e : Instant)
    → value.status < 2 ^ 16
    → to_cached (some (new_row key value e)) ≡ some value
unfolding new_row to_u16
same_status key value e h = ground arith

fresh_row :
    (key : Text) (value : CachedResponse) (now e : Instant)
    → now <ℤ e
    → is_fresh now (new_row key value e) ≡ true
unfolding is_fresh new_row
fresh_row key value now e h = ground arith

module _ (put_env get_env : Env) (key : Text) (value : CachedResponse) (d : Database) where
  -- With distinct keys and no failing call, `put` writes exactly if the key has no active entry. A
  -- `get` before the new expiry then finds the value, or what it found without the `put`.
  pub get-put :
      HasDistinctKeys d.committed.cache
      → put_env.fails cache_put ≡ false
      → get_env.fails cache_get ≡ false
      → value.status < 2 ^ 16
      → get_env.db_now <ℤ (put_env.app_now +ℤ seconds idempotency_ttl)
      → let absent = is_none (lookup key put_env.db_now d.committed.cache) in
        let (r, d') = put put_env key value d in
        (r ≡ ok absent)
        × ((get get_env key d').0 ≡ (if absent then ok (some value) else (get get_env key d).0))
  unfolding put get new_row
  get-put distinct written read bounded in_time =
      let expires_at = put_env.app_now +ℤ seconds idempotency_ttl in
      let row = new_row key value expires_at in
      let (a, b) =
        lookup-upsert put_env.db_now get_env.db_now row d.committed.cache distinct
          (fresh_row key value get_env.db_now expires_at in_time) in
      ground (arith, a, b, written, read, same_status key value expires_at bounded)

stale_later :
    (now later : Instant) (r : CacheRow)
    → now ≤ℤ later
    → is_stale now r ≡ true
    → is_fresh later r ≡ false
unfolding is_stale is_fresh
stale_later now later r h e = ground arith

lookup-sweep :
    (key : Text) (now later : Instant) (rows : List CacheRow)
    → now ≤ℤ later
    → lookup key later (delete_where (is_stale now) rows) ≡ lookup key later rows
unfolding lookup find_where delete_where
lookup-sweep key now later [] h = refl
lookup-sweep key now later (r ∷ rs) h =
    ground (arith, stale_later now later r h, lookup-sweep key now later rs h)

absent_after_sweep :
    (key : Text) (now : Instant) (rows : List CacheRow)
    → find_where (has_key key) rows ≡ none
    → find_where (has_key key) (delete_where (is_stale now) rows) ≡ none
unfolding find_where delete_where
absent_after_sweep key now [] e = refl
absent_after_sweep key now (r ∷ rs) e = ground (arith, absent_after_sweep key now rs)

pub sweep-HasDistinctKeys :
    (now : Instant) (rows : List CacheRow)
    → HasDistinctKeys rows
    → HasDistinctKeys (delete_where (is_stale now) rows)
unfolding delete_where
sweep-HasDistinctKeys now [] d = tt
sweep-HasDistinctKeys now (r ∷ rs) d = elim (Bool-cases (is_stale now r)) [
  | inl stale ↦ rw stale (sweep-HasDistinctKeys now rs d.1)
  | inr active ↦ rw active (absent_after_sweep r.key now rs d.0, sweep-HasDistinctKeys now rs d.1)
]

module _ (sweep_env get_env : Env) (key : Text) (d : Database) where
  -- A sweep, whether it fails or not, changes nothing for a `get` at the same time or later: it
  -- takes away stale entries only, and the keys stay distinct.
  pub get-sweep_expired :
      HasDistinctKeys d.committed.cache
      → sweep_env.db_now ≤ℤ get_env.db_now
      → let d' = (sweep_expired sweep_env d).1 in
        ((get get_env key d').0 ≡ (get get_env key d).0) × HasDistinctKeys d'.committed.cache
  unfolding sweep_expired get
  get-sweep_expired distinct in_order =
      let same = lookup-sweep key sweep_env.db_now get_env.db_now d.committed.cache in_order in
      elim (Bool-cases (sweep_env.fails cache_sweep)) [
        | inl failed ↦ rw failed (refl, distinct)
        | inr done ↦ rw done (
          ground (arith, same),
          sweep-HasDistinctKeys sweep_env.db_now d.committed.cache distinct,
        )
      ]

-- ===== src/Engine/Lifecycle/Backlog.antt =====
-- How a backlog of expired holds shrinks from call to call of the reaper.
use transity_terminal_resv_c.Common.{
  ℕ, ℤ, ◌+◌, ◌≤◌, ◌<◌, ◌≤ℤ◌, leb_ℤ, is_none, ◌⊎◌, ◌≡◌, refl, sym, ap, ◌∙◌, ◌-ℤ◌, Bool, true, false,
  ◌&&◌, Text, text_eq, text_eq_refl, List, [], ◌∷◌, any, All, All-mono, length, arith, Bool-cases,
  inl, inr,
}
use transity_terminal_resv_c.Engine.Types.{Instant, days}
use transity_terminal_resv_c.Engine.Events.{Publisher}
use transity_terminal_resv_c.Engine.Database.{
  HoldRow, Tables, Call, Env, World, AdvisoryLock, unlocked, unlock,
}
use transity_terminal_resv_c.Engine.Database.Sql.{select_where}
use transity_terminal_resv_c.Engine.Database.Where.{is_active}
use transity_terminal_resv_c.Engine.Reaper.{
  batch_limit, purge_enabled, is_purgeable, purge_confirmed, is_expired, expired_rows,
  unmark_expired, delete_expired, expire_holds,
}
use transity_terminal_resv_c.Engine.Reaper.Outcome.{
  purged_tables, reaped_tables, refs_of, expire_holds_quiet,
}
use transity_terminal_resv_c.Engine.Reaper.Lock.{IsHeldOnce, expire_holds-reaper_lock}
use transity_terminal_resv_c.Engine.Reaper.Expiry.{eligible, in_batch, expired_in_batch}
use transity_terminal_resv_c.Engine.Lifecycle.Count.{
  select_where-delete_where, fewer, fewer_among, narrower_count, none_selected, All-limit,
  All-select_where,
}

-- How many holds there are that expire at an instant or before it and that no booking has consumed.
abbrev pub expired_count : Instant → Tables → ℕ
expired_count now t =
    length (select_where (λ h. leb_ℤ h.expires_at now && is_none h.booking_id) t.holds)

-- The same, as the reaper asks for them.
abbrev pub reaped_count : Instant → Tables → ℕ
reaped_count now t = length (select_where (is_expired now) t.holds)

self_named : (hs : List HoldRow) → All (λ h. any (text_eq h.hold_ref) (refs_of hs) ≡ true) hs
self_named [] = tt
self_named (x ∷ xs) = (
  ground (arith, text_eq_refl x.hold_ref),
  All-mono (λ (h : HoldRow). any (text_eq h.hold_ref) (refs_of xs) ≡ true)
      (λ h. any (text_eq h.hold_ref) (refs_of (x ∷ xs)) ≡ true) xs (λ h e. ground (arith, e))
      (self_named xs),
)

All-zip :
    (P Q R : HoldRow → Type 0) (hs : List HoldRow)
    → ((h : HoldRow) → P h → Q h → R h)
    → All P hs
    → All Q hs
    → All R hs
All-zip P Q R [] f p q = tt
All-zip P Q R (h ∷ hs) f p q = (f h p.0 q.0, All-zip P Q R hs f p.1 q.1)

is_expired_active : (now : Instant) (h : HoldRow) → is_expired now h ≡ true → is_active h ≡ true
unfolding is_expired
is_expired_active now h e = ground arith

less_or_more : (n m : ℕ) → (n < m) ⊎ (m ≤ n)
less_or_more n m = ground arith

purged-reaped_count :
    (env : Env) (retention_days : ℤ) (now : Instant) (t : Tables)
    → reaped_count now (purged_tables env retention_days t) ≡ reaped_count now t
unfolding purge_confirmed
purged-reaped_count env retention_days now t = elim (Bool-cases (purge_enabled retention_days)) [
  | inl on ↦ rw on (
      ap length (
        select_where-delete_where (is_expired now)
          (is_purgeable (env.app_now -ℤ days retention_days)) kept t.holds))
  | inr off ↦ rw off refl
]
  where
    kept :
        (h : HoldRow)
        → is_expired now h ≡ true
        → is_purgeable (env.app_now -ℤ days retention_days) h ≡ false
    kept h e = unfold is_purgeable in ground (arith, is_expired_active now h e)

-- What has expired stays expired.
later_expired :
    (now later : Instant) (h : HoldRow)
    → now ≤ℤ later
    → is_expired now h ≡ true
    → is_expired later h ≡ true
unfolding is_expired
later_expired now later h le e = ground arith

pub reaped_count_mono :
    (now later : Instant) → now ≤ℤ later → (t : Tables) → reaped_count now t ≤ reaped_count later t
reaped_count_mono now later le t =
    narrower_count (is_expired now) (is_expired later) (λ h. later_expired now later h le) t.holds

module _ (env : Env) (unlocked_rows : (s : Text) → env.row_locked s ≡ false) where
  same_eligible : (h : HoldRow) → eligible env h ≡ is_expired env.db_now h
  same_eligible h = rw (unlocked_rows h.hold_ref) (and_true (is_expired env.db_now h))
    where
      and_true : (b : Bool) → (b && true) ≡ b
      and_true b = ground arith

  batch_taken :
      (t : Tables) → All (λ h. in_batch env (expired_rows env t) h ≡ true) (expired_rows env t)
  batch_taken t =
      All-zip (λ h. any (text_eq h.hold_ref) (refs_of (expired_rows env t)) ≡ true)
        (λ h. eligible env h ≡ true) (λ h. in_batch env (expired_rows env t) h ≡ true)
        (expired_rows env t)
        (λ h named caught.
          ground (arith, named, is_expired_active env.db_now h (sym (same_eligible h) ∙ caught)))
        (self_named (expired_rows env t))
        (unfold expired_rows in
          All-limit (eligible env) batch_limit _ (All-select_where (eligible env) t.holds))

  -- A batch clears what has expired by `now`, or takes 500 of what expires by `until`.
  reaped-reaped_count :
      (now until : Instant) (t : Tables)
      → now ≤ℤ env.db_now
      → env.db_now ≤ℤ until
      → let t' = reaped_tables (expired_rows env t) t in
        (reaped_count now t' ≤ reaped_count now t)
        × ((reaped_count now t' ≡ 0) ⊎ (reaped_count until t' + batch_limit ≤ reaped_count until t))
  reaped-reaped_count now until t after before = (
    unfold unmark_expired delete_expired in
        fewer (is_expired now) (in_batch env (expired_rows env t)) t.holds,
    elim (less_or_more (length (select_where (eligible env) t.holds)) batch_limit) [
      | inl few ↦
          let cleared = expired_in_batch env t (omega arith) unlocked_rows in
          let holds = (reaped_tables (expired_rows env t) t).holds in
          let none_left = none_selected (is_expired env.db_now) holds cleared in
          let fewer_now =
            narrower_count (is_expired now) (is_expired env.db_now)
              (λ h. later_expired now env.db_now h after) holds in
          inl (omega arith)
      | inr many ↦ inr (
          unfold unmark_expired delete_expired in
          fewer_among (eligible env) (is_expired until) (in_batch env (expired_rows env t))
            (λ h e. later_expired env.db_now until h before (sym (same_eligible h) ∙ e)) batch_limit
            t.holds many (unfold expired_rows in batch_taken t))
    ],
  )

-- A tick of the reaper in which nothing is in its way: no call fails, no row is locked by others, and
-- the database's clock is between `now` and `until`.
pub record IsQuiet (now until : Instant) (env : Env) : Type 0 where
  pub calls : (c : Call) → env.fails c ≡ false
  pub rows : (s : Text) → env.row_locked s ≡ false
  pub after : now ≤ℤ env.db_now
  pub before : env.db_now ≤ℤ until

-- Of what has expired by `now` nothing is left, or `n` have been taken of what expires by `until`.
abbrev pub Shrinks : Instant → Instant → ℕ → Tables → Tables → Type 0
Shrinks now until n t t' =
    (reaped_count now t' ≤ reaped_count now t)
    × ((reaped_count now t' ≡ 0) ⊎ (reaped_count until t' + n ≤ reaped_count until t))

unlocked-IsHeldOnce : (lock : AdvisoryLock) → lock ≡ unlocked → IsHeldOnce lock
unlocked-IsHeldOnce lock e = rw e tt

pub expire_holds-reaped_count :
    {S : Type 0} (publisher : Publisher S) (env : Env) (retention_days : ℤ) (now until : Instant)
    (w : World S)
    → IsQuiet now until env
    → w.database.reaper_lock ≡ unlocked
    → let w' = (expire_holds env publisher retention_days w).1 in
      Shrinks now until batch_limit w.database.committed w'.database.committed
      × (w'.database.reaper_lock ≡ unlocked)
expire_holds-reaped_count publisher env retention_days now until w quiet free =
    let t = w.database.committed in
    let purged = purged_tables env retention_days t in
    let (_, changed, _) = expire_holds_quiet env retention_days quiet.calls publisher w free in
    let shrunk = reaped-reaped_count env quiet.rows now until purged quiet.after quiet.before in
    (
      rw changed (
          ground (
            arith,
            shrunk,
            purged-reaped_count env retention_days now t,
            purged-reaped_count env retention_days until t,
          )),
      expire_holds-reaper_lock publisher env retention_days w (unlocked-IsHeldOnce _ free)
            (quiet.calls unlock)
          ∙ free,
    )

-- ===== src/Engine/Interleaved/Purge.antt =====
-- The reaper's purge, next to transactions that have their locks: it takes consumed holds only.
use transity_terminal_resv_c.Common.{
  ℤ, ◌≡◌, refl, sym, ap, ◌∙◌, ◌-ℤ◌, Bool, true, false, Text, List, [], ◌∷◌, Option, none, some, All,
  All-mono, arith, inl, inr, Bool-cases,
}
use transity_terminal_resv_c.Engine.Types.{Instant, SeatHoldRequest, days}
use transity_terminal_resv_c.Engine.Database.{HoldRow, Tables, Env}
use transity_terminal_resv_c.Engine.Database.Sql.{select_where, find_where}
use transity_terminal_resv_c.Engine.Database.Sql.Laws.{find_where_sound}
use transity_terminal_resv_c.Engine.Database.Where.{has_ref, is_active, is_live}
use transity_terminal_resv_c.Engine.Invariant.{HasDistinctRefs}
use transity_terminal_resv_c.Engine.Invariant.Keep.{has_ref-eq}
use transity_terminal_resv_c.Engine.Reaper.{is_purgeable, purge_confirmed, purge_enabled}
use transity_terminal_resv_c.Engine.Reaper.Outcome.{purged_tables}
use transity_terminal_resv_c.Engine.System.{hold, confirm, cancel, release, expire}
use transity_terminal_resv_c.Engine.Interleaved.{
  Txn, seats_of, ref_of, locks_row, IsChecked, SeatsSame, RefSame, Untouched,
}
use transity_terminal_resv_c.Engine.Interleaved.Select.{select_where-delete_where}
use transity_terminal_resv_c.Engine.Interleaved.Checked.{live_hold-select, active_hold-select}

-- A ref that is found by its row has no other row.
none_selected :
    (g r : Text) (hs : List HoldRow)
    → find_where (has_ref g) hs ≡ none
    → g ≡ r
    → All (λ h. has_ref r h ≡ false) hs
unfolding find_where has_ref
none_selected g r [] e same = tt
none_selected g r (h ∷ hs) e same =
    (rw (← same) (ground arith), none_selected g r hs (ground arith) same)

select_none :
    (p : HoldRow → Bool) (hs : List HoldRow) → All (λ h. p h ≡ false) hs → select_where p hs ≡ []
unfolding select_where
select_none p [] h = refl
select_none p (x ∷ xs) h = rw (h.0, select_none p xs h.1) refl

-- With distinct refs, what a search among the rows of a ref finds is all that there is.
only_row :
    (r : Text) (p : HoldRow → Bool) (hs : List HoldRow) (row : HoldRow)
    → HasDistinctRefs hs
    → find_where p (select_where (has_ref r) hs) ≡ some row
    → All (λ h. has_ref r h ≡ true → h ≡ row) hs
unfolding find_where select_where
only_row r p [] row d e = tt
only_row r p (h ∷ hs) row d e = elim (Bool-cases (has_ref r h)) [
  | inl hit ↦
      let others = none_selected h.hold_ref r hs d.0 (has_ref-eq r h hit) in
      (
        (λ _. ground (arith, select_none (has_ref r) hs others)),
        All-mono (λ x. has_ref r x ≡ false) _ hs (λ x miss k. cc) others,
      )
  | inr miss ↦ ((λ hit. cc), only_row r p hs row d.1 (ground arith))
]

-- The hold that a transaction has locked is not consumed.
active_only :
    (r : Text) (hs : List HoldRow) (row : HoldRow)
    → is_active row ≡ true
    → All (λ h. has_ref r h ≡ true → h ≡ row) hs
    → All (λ h. has_ref r h ≡ true → is_active h ≡ true) hs
active_only r hs row active = All-mono _ _ hs (λ h same hit. rw (same hit) active)

abbrev RefActive : Tables → Option Text → Type 0
RefActive t none = Unit
RefActive t (some r) = All (λ h. has_ref r h ≡ true → is_active h ≡ true) t.holds

locked_active :
    (t : Tables) (x : Txn) → HasDistinctRefs t.holds → IsChecked t x → RefActive t (ref_of x.1)
locked_active t (_, hold _ _) d c = tt
locked_active t (env, confirm r _) d (row, c) =
    active_only r t.holds row (unfold is_active in rw c.unconsumed refl) (
      only_row r (is_live env.db_now) t.holds row d
        (sym (live_hold-select r env.db_now t) ∙ c.live))
locked_active t (_, release r) d (row, c) =
    let found = sym (active_hold-select r t) ∙ c in
    active_only r t.holds row
      (find_where_sound is_active (select_where (has_ref r) t.holds) row found)
      (only_row r is_active t.holds row d found)
locked_active t (_, cancel _ _ _) d c = absurd c
locked_active t (_, expire _) d c = absurd c

-- The purge.
purged-RefSame :
    (env : Env) (retention_days : ℤ) (t : Tables) (r : Option Text)
    → RefActive t r
    → RefSame t (purged_tables env retention_days t) r
purged-RefSame env retention_days t none active = tt
purged-RefSame env retention_days t (some r) active =
    elim (Bool-cases (purge_enabled retention_days)) [
      | inl on ↦ rw on (
          unfold purge_confirmed in
          select_where-delete_where (is_purgeable cutoff) (has_ref r) t.holds (
            All-mono (λ h. has_ref r h ≡ true → is_active h ≡ true) _ t.holds
              (λ h active purgeable. unfold is_purgeable in ground arith) active))
      | inr off ↦ rw off refl
    ]
  where
    cutoff : Instant
    cutoff = env.app_now -ℤ days retention_days

purged-inventory :
    (env : Env) (retention_days : ℤ) (t : Tables)
    → (purged_tables env retention_days t).inventory ≡ t.inventory
unfolding purge_confirmed
purged-inventory env retention_days t = elim (Bool-cases (purge_enabled retention_days)) [
  | inl on ↦ rw on refl
  | inr off ↦ rw off refl
]

pub purged-Untouched :
    (env : Env) (retention_days : ℤ) (t : Tables) (x : Txn)
    → HasDistinctRefs t.holds
    → IsChecked t x
    → Untouched t (purged_tables env retention_days t) x
purged-Untouched env retention_days t x d c =
    (seats (seats_of x.1), purged-RefSame env retention_days t (ref_of x.1) (locked_active t x d c))
  where
    seats : (o : Option SeatHoldRequest) → SeatsSame t (purged_tables env retention_days t) o
    seats none = tt
    seats (some req) = ap (select_where (locks_row req)) (purged-inventory env retention_days t)

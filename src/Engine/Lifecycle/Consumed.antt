-- ===== src/Engine/Lifecycle/Consumed.antt =====
-- A hold that a confirmation has consumed.
use mathlib.Core.Path.{subst}
use transity_terminal_resv_c.Common.{
  ◌≡◌, refl, Bool, false, ◌&&◌, Text, List, [], ◌∷◌, none, some, arith, ok, Bool-cases, inl, inr,
  if◌then◌else◌,
}
use transity_terminal_resv_c.Engine.Events.{Publisher}
use transity_terminal_resv_c.Engine.Database.{HoldRow, Call, Env, World, begin, select_hold}
use transity_terminal_resv_c.Engine.Database.Sql.{find_where}
use transity_terminal_resv_c.Engine.Database.Sql.Find.{find_where-and}
use transity_terminal_resv_c.Engine.Database.Where.{has_ref, is_active, is_live}
use transity_terminal_resv_c.Engine.Confirm.{live_hold, refused, confirm_booking}
use transity_terminal_resv_c.Engine.Release.{active_hold, release_hold_by_ref}
use transity_terminal_resv_c.Engine.Release.Outcome.{release_miss}
use transity_terminal_resv_c.Engine.Confirm.Outcome.{confirm_miss, confirm_consumed}
use transity_terminal_resv_c.Engine.Invariant.{HasDistinctRefs, IsConsistent}
use transity_terminal_resv_c.Engine.Invariant.Keep.{has_ref-eq}

module _ (q : HoldRow → Bool) (s : Text) where
  and_unfound :
      (hs : List HoldRow)
      → find_where (has_ref s) hs ≡ none
      → find_where (λ x. has_ref s x && q x) hs ≡ none
  unfolding find_where
  and_unfound [] e = refl
  and_unfound (y ∷ ys) e = ground (arith, and_unfound ys)

  -- Where refs are distinct, the one row of a ref decides a narrower search.
  find_where-and_none :
      (hs : List HoldRow) (h : HoldRow)
      → HasDistinctRefs hs
      → find_where (has_ref s) hs ≡ some h
      → q h ≡ false
      → find_where (λ x. has_ref s x && q x) hs ≡ none
  unfolding find_where
  find_where-and_none [] h d e f = refl
  find_where-and_none (y ∷ ys) h d e f = elim (Bool-cases (has_ref s y)) [
    | inl hit ↦ ground (
      arith,
      and_unfound ys (subst (λ r. find_where (has_ref r) ys ≡ none) (has_ref-eq s y hit) d.0),
    )
    | inr miss ↦ ground (arith, find_where-and_none ys h d.1)
  ]

inactive : (h : HoldRow) (booking_id : Text) → h.booking_id ≡ some booking_id → is_active h ≡ false
unfolding is_active
inactive h booking_id e = ground arith

module _ {S : Type 0} (publisher : Publisher S) (env : Env) (hold_ref booking_id : Text)
    (h : HoldRow) (w : World S) where
  confirm_half :
      (again : Text)
      → IsConsistent w.database.committed
      → find_where (has_ref hold_ref) w.database.committed.holds ≡ some h
      → h.booking_id ≡ some booking_id
      → ((c : Call) → env.fails c ≡ false)
      → let (r2, w2) = confirm_booking env publisher hold_ref again w in
        (r2
          ≡ ok (
              refused (
                if is_live env.db_now h
                then "HOLD_ALREADY_CONSUMED"
                else "HOLD_EXPIRED_OR_MISSING")))
        × (w2.database.committed ≡ w.database.committed)
        × (w2.bus ≡ w.bus)
  unfolding live_hold
  confirm_half again c found consumed quiet = elim (Bool-cases (is_live env.db_now h)) [
    | inl live ↦ rw live (
        confirm_consumed publisher env hold_ref again w h booking_id (quiet begin)
          (quiet select_hold)
          (find_where-and (has_ref hold_ref) (is_live env.db_now) w.database.committed.holds h found
            live)
          consumed)
    | inr dead ↦ rw dead (
        confirm_miss publisher env hold_ref again w (quiet begin) (quiet select_hold) (
          find_where-and_none (is_live env.db_now) hold_ref w.database.committed.holds h c.distinct
            found dead))
  ]

  -- In consistent tables, with no failing call, a release of a consumed hold reports
  -- `success: false`, and a confirmation of it reports HOLD_ALREADY_CONSUMED before its expiry and
  -- HOLD_EXPIRED_OR_MISSING after; neither changes the committed tables or publishes anything.
  pub consumed_is_final :
      (again : Text)
      → IsConsistent w.database.committed
      → find_where (has_ref hold_ref) w.database.committed.holds ≡ some h
      → h.booking_id ≡ some booking_id
      → ((c : Call) → env.fails c ≡ false)
      → let (r, w') = release_hold_by_ref env publisher hold_ref w in
        let (r2, w2) = confirm_booking env publisher hold_ref again w in
        (r ≡ ok (record { success = false }))
        × (w'.database.committed ≡ w.database.committed)
        × (w'.bus ≡ w.bus)
        × (r2
            ≡ ok (
                refused (
                  if is_live env.db_now h
                  then "HOLD_ALREADY_CONSUMED"
                  else "HOLD_EXPIRED_OR_MISSING")))
        × (w2.database.committed ≡ w.database.committed)
        × (w2.bus ≡ w.bus)
  consumed_is_final again c found consumed quiet =
      let missing =
        find_where-and_none is_active hold_ref w.database.committed.holds h c.distinct found
          (inactive h booking_id consumed) in
      let (a, b, d) =
        release_miss publisher env hold_ref w (quiet begin) (quiet select_hold)
          (unfold active_hold in missing) in
      let (x, y, z) = confirm_half again c found consumed quiet in (a, b, d, x, y, z)

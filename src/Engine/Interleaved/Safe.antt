-- ===== src/Engine/Interleaved/Safe.antt =====
-- The locks keep what each open transaction has checked.
use mathlib.Core.Path.{subst}
use transity_terminal_resv_c.Common.{
  ◌≡◌, sym, ap, ◌∙◌, Text, true, false, List, [], ◌∷◌, ◌++◌, All, All-mono, Option, none, some,
}
use transity_terminal_resv_c.Engine.Types.{SeatHoldRequest}
use transity_terminal_resv_c.Engine.Events.{Publisher}
use transity_terminal_resv_c.Engine.Database.{Tables, Env, World}
use transity_terminal_resv_c.Engine.System.{Operation, perform}
use transity_terminal_resv_c.Engine.System.Committed.{perform-Commits}
use transity_terminal_resv_c.Engine.System.Keys.{seat_keys, Commits-seat_keys}
use transity_terminal_resv_c.Engine.Interleaved.{
  Txn, seats_of, ref_of, locks_key, SeatsApart, RefsApart, Apart, IsChecked, effect, Untouched,
  Shared, Step, locks, rolls_back, commits, alone, Reachable, started, then_step,
}
use transity_terminal_resv_c.Engine.Interleaved.Select.{All-split, All-zip}
use transity_terminal_resv_c.Engine.Interleaved.Checked.{IsChecked-Untouched}
use transity_terminal_resv_c.Engine.Interleaved.Keep.{effect-Untouched, effect-seat_keys}

abbrev pub Pairwise : Tables → List Txn → Type 0
Pairwise t [] = Unit
Pairwise t (x ∷ xs) = All (Apart t x) xs × Pairwise t xs

SeatsApart-sym : (t : Tables) (a b : Option SeatHoldRequest) → SeatsApart t a b → SeatsApart t b a
SeatsApart-sym t (some a) (some b) h = (h.1, h.0)
SeatsApart-sym t (some a) none h = tt
SeatsApart-sym t none (some b) h = tt
SeatsApart-sym t none none h = tt

RefsApart-sym : (r s : Option Text) → RefsApart r s → RefsApart s r
RefsApart-sym (some r) (some s) h = (h.1, h.0)
RefsApart-sym (some r) none h = tt
RefsApart-sym none (some s) h = tt
RefsApart-sym none none h = tt

Apart-sym : (t : Tables) (x y : Txn) → Apart t x y → Apart t y x
Apart-sym t (_, a) (_, b) h =
    (SeatsApart-sym t (seats_of a) (seats_of b) h.0, RefsApart-sym (ref_of a) (ref_of b) h.1)

Pairwise-split :
    (t : Tables) (xs ys : List Txn) (a : Txn)
    → Pairwise t (xs ++ a ∷ ys)
    → All (Apart t a) (xs ++ ys) × Pairwise t (xs ++ ys)
Pairwise-split t [] ys a h = h
Pairwise-split t (x ∷ xs) ys a h =
    let (first, rest) = All-split (Apart t x) xs ys a h.0 in
    let (apart, others) = Pairwise-split t xs ys a h.1 in
    ((Apart-sym t x a first, apart), (rest, others))

-- Whether locks overlap depends on the seats and legs that there are.
SeatsApart-keys :
    (t t' : Tables) (a b : Option SeatHoldRequest)
    → seat_keys t' ≡ seat_keys t
    → SeatsApart t a b
    → SeatsApart t' a b
SeatsApart-keys t t' (some a) (some b) e h = (
  subst (All (λ k. locks_key a k ≡ true → locks_key b k ≡ false)) (sym e) h.0,
  subst (All (λ k. locks_key b k ≡ true → locks_key a k ≡ false)) (sym e) h.1,
)
SeatsApart-keys t t' (some a) none e h = tt
SeatsApart-keys t t' none (some b) e h = tt
SeatsApart-keys t t' none none e h = tt

Pairwise-keys :
    (t t' : Tables) (xs : List Txn) → seat_keys t' ≡ seat_keys t → Pairwise t xs → Pairwise t' xs
Pairwise-keys t t' [] e h = tt
Pairwise-keys t t' ((env, a) ∷ xs) e h = (
  All-mono (Apart t (env, a)) (Apart t' (env, a)) xs
      (λ y apart. (SeatsApart-keys t t' (seats_of a) (seats_of y.1) e apart.0, apart.1)) h.0,
  Pairwise-keys t t' xs e h.1,
)

-- What holds between the steps.
pub record IsSafe (s : Shared) : Type 0 where
  pub apart : Pairwise s.tables s.holders
  pub checked : All (IsChecked s.tables) s.holders

module _ {S : Type 0} (publisher : Publisher S) where
  perform-seat_keys :
      (t t' : Tables) (env : Env) (op : Operation) (w : World S)
      → w.database.committed ≡ t
      → (perform publisher env op w).database.committed ≡ t'
      → seat_keys t' ≡ seat_keys t
  perform-seat_keys t t' env op w e e' =
      ap seat_keys (sym e')
      ∙ Commits-seat_keys (perform-Commits publisher env op w)
      ∙ ap seat_keys e

  Step-IsSafe : (s s' : Shared) → Step publisher s s' → IsSafe s → IsSafe s'
  Step-IsSafe _ _ (locks t holders log x apart c) safe = record {
    apart = (apart, safe.apart);
    checked = (c, safe.checked);
  }
  Step-IsSafe _ _ (rolls_back t before after log x) safe = record {
    apart = (Pairwise-split t before after x safe.apart).1;
    checked = (All-split (IsChecked t) before after x safe.checked).1;
  }
  Step-IsSafe _ _ (commits t before after log x quiet fresh) safe =
      let (apart, rest) = Pairwise-split t before after x safe.apart in
      let (own, others) = All-split (IsChecked t) before after x safe.checked in
      record {
        apart = Pairwise-keys t (effect x t) (before ++ after) (effect-seat_keys x t) rest;
        checked =
            All-zip (Apart t x) (IsChecked t) (IsChecked (effect x t)) (before ++ after)
              (λ y d c.
                IsChecked-Untouched t (effect x t) y (effect-Untouched t x y fresh own c d) c)
              apart others;
      }
  Step-IsSafe _ _ (alone t t' holders log env op w e e' untouched) safe = record {
    apart = Pairwise-keys t t' holders (perform-seat_keys t t' env op w e e') safe.apart;
    checked =
        All-zip (Untouched t t') (IsChecked t) (IsChecked t') holders
          (λ y same c. IsChecked-Untouched t t' y same c) untouched safe.checked;
  }

  pub Reachable-IsSafe : (start : Tables) (s : Shared) → Reachable publisher start s → IsSafe s
  Reachable-IsSafe start _ started = record { apart = tt; checked = tt }
  Reachable-IsSafe start _ (then_step s s' r step) =
      Step-IsSafe s s' step (Reachable-IsSafe start s r)

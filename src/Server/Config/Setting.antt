-- ===== src/Server/Config/Setting.antt =====
-- What a variable of the environment stands for.
use transity_terminal_resv_c.Common.{
  ℕ, ℤ, ◌≤◌, ◌≡◌, refl, ap, true, not, ◌&&◌, any, Text, text_eq, text_eq_iff, List, [], ◌∷◌, map,
  is_empty, Option, none, some, arith, Bool-cases, inl, inr,
}
use transity_terminal_resv_c.Common.Std.{
  trim, split, parse_digits, in_range, some_digits, parse_unsigned, parse_i64,
}
use transity_terminal_resv_c.Server.Hmac.Laws.{IsI64}
use transity_terminal_resv_c.Server.Hmac.Split.{parse_i64-IsI64}
use transity_terminal_resv_c.Engine.Database.Sql.{select_where}
use transity_terminal_resv_c.Server.Config.{unwrap_or, parsed, service_ids, allowlist}

-- What a variable stands for: what its text is read as, or the default if there is no variable or its
-- text cannot be read.
pub data Setting {A : Type 0} (parse : Text → Option A) (default : A) (v : Option Text)
    : A → Type 0 where
  given : (s : Text) (a : A) → v ≡ some s → parse s ≡ some a → Setting parse default v a
  unset : v ≡ none → Setting parse default v default
  garbled : (s : Text) → v ≡ some s → parse s ≡ none → Setting parse default v default

pub parsed-Setting :
    {A : Type 0} (parse : Text → Option A) (default : A) (v : Option Text)
    → Setting parse default v (unwrap_or default (parsed parse v))
parsed-Setting parse default none = unset refl
parsed-Setting {A} parse default (some s) = go (parse s) refl
  where
    go : (o : Option A) → parse s ≡ o → Setting parse default (some s) (unwrap_or default o)
    go none e = garbled s refl e
    go (some a) e = given s a refl e

pub text-Setting : (default : Text) (v : Option Text) → Setting some default v (unwrap_or default v)
text-Setting default none = unset refl
text-Setting default (some s) = given s s refl refl

-- The pieces of a list between its commas.
abbrev pub pieces : Option Text → List Text
pieces none = []
pieces (some s) = split 44 s

-- A service is on the list exactly if it is a piece, without the blanks around it, and not empty.
pub Names : Option Text → List Text → Type 0
Names v ids =
    (x : Text)
    → any (λ a. text_eq a x) ids ≡ (not (is_empty x) && any (λ p. text_eq (trim p) x) (pieces v))

empty_eq : (x : Text) → is_empty x ≡ true → x ≡ []
empty_eq [] e = refl
empty_eq (c ∷ x) e = cc

selected_named :
    (ps : List Text) (x : Text)
    → any (λ a. text_eq a x) (select_where (λ p. not (is_empty p)) (map trim ps))
      ≡ (not (is_empty x) && any (λ p. text_eq (trim p) x) ps)
unfolding select_where
selected_named [] x = ground arith
selected_named (p ∷ ps) x = elim (Bool-cases (text_eq (trim p) x)) [
  | inl e ↦
      let same = ap is_empty ((text_eq_iff (trim p) x).0 e) in
      ground (arith, e, same, selected_named ps x)
  | inr e ↦ ground (arith, e, selected_named ps x)
]

pub allowlist-Names : (v : Option Text) → Names v (allowlist v)
unfolding service_ids Names
allowlist-Names none x = ground arith
allowlist-Names (some s) x = selected_named (split 44 s) x

in_range_max : (max m : ℕ) (o : Option ℕ) → in_range max o ≡ some m → m ≤ max
unfolding in_range
in_range_max max m none e = cc
in_range_max max m (some n) e = ground arith

some_digits_max : (max m : ℕ) (s : Text) → some_digits max s ≡ some m → m ≤ max
unfolding some_digits
some_digits_max max m [] e = cc
some_digits_max max m (c ∷ s) e = in_range_max max m (parse_digits 0 (c ∷ s)) e

parse_unsigned_max : (max m : ℕ) (s : Text) → parse_unsigned max s ≡ some m → m ≤ max
unfolding parse_unsigned
parse_unsigned_max max m [] e = cc
parse_unsigned_max max m (c ∷ s) e =
    ground (arith, some_digits_max max m s, some_digits_max max m (c ∷ s))

pub var_max :
    (max default : ℕ) (v : Option Text)
    → default ≤ max
    → unwrap_or default (parsed (parse_unsigned max) v) ≤ max
var_max max default none h = h
var_max max default (some s) h = go (parse_unsigned max s) refl
  where
    go : (o : Option ℕ) → parse_unsigned max s ≡ o → unwrap_or default o ≤ max
    go none e = h
    go (some m) e = parse_unsigned_max max m s e

pub parsed-IsI64 :
    (default : ℤ) (v : Option Text) → IsI64 default → IsI64 (unwrap_or default (parsed parse_i64 v))
parsed-IsI64 default none h = h
parsed-IsI64 default (some s) h = go (parse_i64 s) refl
  where
    go : (o : Option ℤ) → parse_i64 s ≡ o → IsI64 (unwrap_or default o)
    go none e = h
    go (some t) e = parse_i64-IsI64 s t e

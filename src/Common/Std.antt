-- ===== src/Common/Std.antt =====
-- Functions of Rust's standard library on strings and integers that the server uses.
use Prim.Native.Nat.{ℕ, zero, suc, ◌+◌, ◌-◌, ◌*◌, ◌/◌, ◌%◌, ◌^◌}
use mathlib.Core.Bool.{Bool, ◌&&◌, ◌||◌}
use mathlib.Core.Option.{Option, none, some}
use mathlib.Core.List.{List, [], ◌∷◌, ◌++◌}
use transity_terminal_resv_c.Common.Tests.{ltb, leb, ◌==◌, if◌then◌else◌}
use transity_terminal_resv_c.Common.Lists.{is_empty}
use transity_terminal_resv_c.Common.Int.{ℤ, pos, negsuc, sub_ℕ, ◌-ℤ◌}
use transity_terminal_resv_c.Common.Strings.{Text}

-- `as_bytes`: the UTF-8 bytes of a string.
unfoldable pub char_bytes : ℕ → List ℕ
char_bytes c =
    if ltb c 128
    then c ∷ []
    else if ltb c 2048
    then (192 + c / 64) ∷ (128 + c % 64) ∷ []
    else if ltb c 65_536
    then (224 + c / 4096) ∷ (128 + c / 64 % 64) ∷ (128 + c % 64) ∷ []
    else (240 + c / 262_144) ∷ (128 + c / 4096 % 64) ∷ (128 + c / 64 % 64) ∷ (128 + c % 64) ∷ []

unfoldable pub as_bytes : Text → List ℕ
as_bytes [] = []
as_bytes (c ∷ s) = char_bytes c ++ as_bytes s

-- `char::is_whitespace`: the code points with the property White_Space.
unfoldable pub is_whitespace : ℕ → Bool
is_whitespace c =
    leb 9 c && leb c 13
    || (c == 32
        || (c == 133
            || (c == 160
                || (c == 5760
                    || (leb 8192 c && leb c 8202
                        || (c == 8232
                            || (c == 8233 || (c == 8239 || (c == 8287 || c == 12_288)))))))))

unfoldable pub trim_start : Text → Text
trim_start [] = []
trim_start (c ∷ s) = if is_whitespace c then trim_start s else c ∷ s

unfoldable pub trim_end : Text → Text
trim_end [] = []
trim_end (c ∷ s) =
    let rest = trim_end s in if is_whitespace c && is_empty rest then [] else c ∷ rest

unfoldable pub trim : Text → Text
unfolding trim_start trim_end
trim s = trim_end (trim_start s)

-- `(n as u64).to_be_bytes()`.
unfoldable pub to_be_bytes : ℕ → List ℕ
to_be_bytes n =
    (n / 2 ^ 56 % 256)
    ∷ (n / 2 ^ 48 % 256)
    ∷ (n / 2 ^ 40 % 256)
    ∷ (n / 2 ^ 32 % 256)
    ∷ (n / 2 ^ 24 % 256)
    ∷ (n / 2 ^ 16 % 256)
    ∷ (n / 2 ^ 8 % 256)
    ∷ (n % 256)
    ∷ []

-- `n as u16` of an `i32`.
unfoldable pub to_u16 : ℤ → ℕ
to_u16 (pos n) = n % 2 ^ 16
to_u16 (negsuc n) = 2 ^ 16 - 1 - n % 2 ^ 16

-- Integers of 64 bits: the one wrap that a difference of two of them may need.
unfoldable pub wrap_i64 : ℤ → ℤ
wrap_i64 (pos n) = if ltb n (2 ^ 63) then pos n else sub_ℕ n (2 ^ 64)
wrap_i64 (negsuc n) = if ltb n (2 ^ 63) then negsuc n else sub_ℕ (2 ^ 64) (suc n)

unfoldable pub sub_i64 : ℤ → ℤ → ℤ
unfolding wrap_i64
sub_i64 a b = wrap_i64 (a -ℤ b)

-- `abs` without overflow checks: that of `i64::MIN` is `i64::MIN`.
unfoldable pub abs_i64 : ℤ → ℤ
unfolding wrap_i64
abs_i64 (pos n) = pos n
abs_i64 (negsuc n) = wrap_i64 (pos (suc n))

-- The decimal digits of a string, none where it has another character.
unfoldable pub parse_digits : ℕ → Text → Option ℕ
parse_digits n [] = some n
parse_digits n (c ∷ s) =
    let rest = parse_digits (n * 10 + (c - 48)) s in if leb 48 c && leb c 57 then rest else none

-- `parse` of an unsigned integer: an optional plus sign and at least one digit, up to `max`.
unfoldable pub in_range : ℕ → Option ℕ → Option ℕ
in_range max none = none
in_range max (some n) = if leb n max then some n else none

unfoldable pub some_digits : ℕ → Text → Option ℕ
unfolding in_range parse_digits
some_digits max [] = none
some_digits max (c ∷ s) = in_range max (parse_digits 0 (c ∷ s))

unfoldable pub parse_unsigned : ℕ → Text → Option ℕ
unfolding some_digits
parse_unsigned max [] = none
parse_unsigned max (c ∷ s) = if c == 43 then some_digits max s else some_digits max (c ∷ s)

-- `parse::<i64>`.
abbrev to_neg : Option ℕ → Option ℤ
to_neg none = none
to_neg (some zero) = some (pos 0)
to_neg (some (suc n)) = some (negsuc n)

abbrev to_pos : Option ℕ → Option ℤ
to_pos none = none
to_pos (some n) = some (pos n)

unfoldable pub parse_i64 : Text → Option ℤ
unfolding parse_unsigned some_digits
parse_i64 [] = none
parse_i64 (c ∷ s) =
    if c == 45
    then to_neg (some_digits (2 ^ 63) s)
    else to_pos (parse_unsigned (2 ^ 63 - 1) (c ∷ s))

-- `to_string` of an integer of up to `fuel` digits; 20 are enough for 64 bits.
unfoldable pub show_digits : ℕ → ℕ → Text
show_digits zero n = []
show_digits (suc fuel) n =
    let rest = show_digits fuel (n / 10) in
    if ltb n 10 then (48 + n) ∷ [] else rest ++ (48 + n % 10) ∷ []

unfoldable pub show_i64 : ℤ → Text
unfolding show_digits
show_i64 (pos n) = show_digits 20 n
show_i64 (negsuc n) = 45 ∷ show_digits 20 (suc n)

-- `to_uppercase` of an ASCII string.
unfoldable pub to_uppercase : Text → Text
to_uppercase [] = []
to_uppercase (c ∷ s) = (if leb 97 c && leb c 122 then c - 32 else c) ∷ to_uppercase s

-- `split` at a character: at least one piece.
abbrev prepend : ℕ → List Text → List Text
prepend c [] = (c ∷ []) ∷ []
prepend c (p ∷ ps) = (c ∷ p) ∷ ps

unfoldable pub split : ℕ → Text → List Text
split sep [] = [] ∷ []
split sep (c ∷ s) = let pieces = split sep s in if c == sep then [] ∷ pieces else prepend c pieces

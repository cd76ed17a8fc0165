-- ===== src/Engine/Examples/Wire.antt =====
-- A hold result as JSON.
use transity_terminal_resv_c.Common.{
  ◌≡◌, refl, pos, negsuc, true, Text, [], ◌∷◌, Option, none, some, ok,
}
use transity_terminal_resv_c.Engine.Types.{Uuid, Instant, success}
use transity_terminal_resv_c.Engine.Wire.{Texts, serialize, deserialize}
use transity_terminal_resv_c.Engine.Wire.RoundTrip.{HasFlag, deserialize-serialize}

-- Short text forms.
abbrev short_time : Instant → Text
short_time (pos n) = n ∷ []
short_time (negsuc n) = 45 ∷ n ∷ []

abbrev read_time : Text → Option Instant
read_time (n ∷ []) = some (pos n)
read_time (_ ∷ n ∷ []) = some (negsuc n)
read_time _ = none

abbrev read_uuid : Text → Option Uuid
read_uuid (u ∷ []) = some u
read_uuid _ = none

abbrev short_texts : Texts
short_texts = record {
  show_uuid = λ u. u ∷ [];
  parse_uuid = read_uuid;
  show_time = short_time;
  parse_time = read_time;
}

short_time-read : (t : Instant) → read_time (short_time t) ≡ some t
short_time-read (pos n) = refl
short_time-read (negsuc n) = refl

deserialize-serialize_example :
    deserialize short_texts (serialize short_texts (success true 7 (pos 300)))
    ≡ ok (success true 7 (pos 300))
unfolding HasFlag
deserialize-serialize_example =
    deserialize-serialize short_texts (λ u. refl) short_time-read (success true 7 (pos 300)) refl

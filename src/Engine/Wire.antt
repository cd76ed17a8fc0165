-- ===== src/Engine/Wire.antt =====
-- types.rs: the JSON of `AtomicHoldResult`, with its `Deserialize` written by hand.
pub mod RoundTrip
use transity_terminal_resv_c.Common.{
  ℤ, Bool, true, false, Text, codes, text_eq, List, [], ◌∷◌, Option, none, some, Result, ok, err,
  if◌then◌else◌,
}
use transity_terminal_resv_c.Common.Fallible.{◌>>=◌, ok_or}
use transity_terminal_resv_c.Engine.Types.{
  Uuid, Instant, HoldFailureReason, incomplete_inventory, seat_conflict, transaction_error,
  AtomicHoldResult, success, failure,
}

-- `serde_json::Value`, whose objects have each key once.
mutual
  pub data Json : Type 0 where
    null : Json
    boolean : Bool → Json
    number : ℤ → Json
    string : Text → Json
    array : Items → Json
    object : Fields → Json

  pub data Items : Type 0 where
    no_items : Items
    item : Json → Items → Items

  pub data Fields : Type 0 where
    no_fields : Fields
    field : Text → Json → Fields → Fields

-- `Value::get`.
unfoldable pub field_of : Text → Fields → Option Json
field_of name no_fields = none
field_of name (field key v rest) = if text_eq key name then some v else field_of name rest

abbrev pub get_field : Text → Json → Option Json
get_field name (object fields) = field_of name fields
get_field name _ = none

abbrev pub as_bool : Option Json → Option Bool
as_bool (some (boolean b)) = some b
as_bool _ = none

abbrev pub as_text : Option Json → Option Text
as_text (some (string s)) = some s
as_text _ = none

-- The text forms of the crates uuid and chrono.
pub record Texts : Type 0 where
  pub show_uuid : Uuid → Text
  pub parse_uuid : Text → Option Uuid
  pub show_time : Instant → Text
  pub parse_time : Text → Option Instant

-- The name of a reason in SCREAMING_SNAKE_CASE.
unfoldable pub reason_name : HoldFailureReason → Text
reason_name incomplete_inventory = codes "INCOMPLETE_INVENTORY"
reason_name seat_conflict = codes "SEAT_CONFLICT"
reason_name transaction_error = codes "TRANSACTION_ERROR"

unfoldable pub parse_reason : Text → Option HoldFailureReason
parse_reason s =
    if text_eq s (codes "INCOMPLETE_INVENTORY")
    then some incomplete_inventory
    else if text_eq s (codes "SEAT_CONFLICT")
    then some seat_conflict
    else if text_eq s (codes "TRANSACTION_ERROR")
    then some transaction_error
    else none

unfoldable pub to_items : List Text → Items
to_items [] = no_items
to_items (s ∷ ss) = item (string s) (to_items ss)

abbrev cons_text : Option Text → Option (List Text) → Option (List Text)
cons_text (some s) (some ss) = some (s ∷ ss)
cons_text _ _ = none

unfoldable pub of_items : Items → Option (List Text)
of_items no_items = some []
of_items (item v vs) = cons_text (as_text (some v)) (of_items vs)

-- #[serde(default)]: none where the field is missing, and an error where it is no array of text.
unfoldable pub seats_of : Option Json → Option (List Text)
unfolding of_items
seats_of none = some []
seats_of (some (array items)) = of_items items
seats_of (some _) = none

abbrev pub and_then {ℓ} : {A B : Type ℓ} → Option A → (A → Option B) → Option B
and_then none f = none
and_then (some a) f = f a

module _ (texts : Texts) where
  -- The derived, untagged `Serialize`.
  unfoldable pub serialize : AtomicHoldResult → Json
  unfolding to_items reason_name
  serialize (success ok_flag hold_ref expires_at) = object (
      field (codes "success") (boolean ok_flag) (
        field (codes "hold_ref") (string (texts.show_uuid hold_ref))
          (field (codes "expires_at") (string (texts.show_time expires_at)) no_fields)))
  serialize (failure ok_flag reason conflict_seats) = object (
      field (codes "success") (boolean ok_flag) (
        field (codes "reason") (string (reason_name reason))
          (field (codes "conflict_seats") (array (to_items conflict_seats)) no_fields)))

  -- `OkVariant` and `FailVariant`; the texts of their errors are left out.
  unfoldable pub ok_variant : Json → Result Text AtomicHoldResult
  ok_variant v = do
    ok_flag ← ok_or (as_bool (get_field (codes "success") v)) (codes "OkVariant")
    hold_ref ←
        ok_or (and_then (as_text (get_field (codes "hold_ref") v)) texts.parse_uuid)
          (codes "OkVariant")
    expires_at ←
        ok_or (and_then (as_text (get_field (codes "expires_at") v)) texts.parse_time)
          (codes "OkVariant")
    ok (success ok_flag hold_ref expires_at)

  unfoldable pub fail_variant : Json → Result Text AtomicHoldResult
  unfolding parse_reason seats_of
  fail_variant v = do
    ok_flag ← ok_or (as_bool (get_field (codes "success") v)) (codes "FailVariant")
    reason ←
        ok_or (and_then (as_text (get_field (codes "reason") v)) parse_reason) (codes "FailVariant")
    conflict_seats ← ok_or (seats_of (get_field (codes "conflict_seats") v)) (codes "FailVariant")
    ok (failure ok_flag reason conflict_seats)

  unfoldable pub deserialize : Json → Result Text AtomicHoldResult
  unfolding ok_variant fail_variant
  deserialize v = do
    is_ok ←
        ok_or (as_bool (get_field (codes "success") v))
          (codes "missing or non-bool `success` discriminator")
    if is_ok then ok_variant v else fail_variant v

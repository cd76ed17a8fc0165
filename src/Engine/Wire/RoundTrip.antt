-- ===== src/Engine/Wire/RoundTrip.antt =====
-- What is written and read again.
use transity_terminal_resv_c.Common.{
  ◌≡◌, refl, ap, true, false, Text, text_eq, List, [], ◌∷◌, some, ok,
}
use transity_terminal_resv_c.Engine.Types.{
  Uuid, Instant, HoldFailureReason, incomplete_inventory, seat_conflict, transaction_error,
  AtomicHoldResult, success, failure,
}
use transity_terminal_resv_c.Engine.Wire.{
  field_of, Texts, reason_name, parse_reason, to_items, of_items, cons_text, seats_of, serialize,
  ok_variant, fail_variant, deserialize,
}

of_items-to_items : (ss : List Text) → of_items (to_items ss) ≡ some ss
unfolding of_items to_items
of_items-to_items [] = refl
of_items-to_items (s ∷ ss) = ap (cons_text (some s)) (of_items-to_items ss)

parse_reason-reason_name : (r : HoldFailureReason) → parse_reason (reason_name r) ≡ some r
unfolding parse_reason reason_name text_eq
parse_reason-reason_name incomplete_inventory = refl
parse_reason-reason_name seat_conflict = refl
parse_reason-reason_name transaction_error = refl

-- The `success` flag of a result is that of its variant.
unfoldable pub HasFlag : AtomicHoldResult → Type 0
HasFlag (success flag _ _) = flag ≡ true
HasFlag (failure flag _ _) = flag ≡ false

module _ (texts : Texts) (uuids : (u : Uuid) → texts.parse_uuid (texts.show_uuid u) ≡ some u)
    (times : (t : Instant) → texts.parse_time (texts.show_time t) ≡ some t) where
  -- Where the text forms of uuids and instants are read back, a hold result whose flag fits its
  -- variant is read back from its JSON.
  pub deserialize-serialize :
      (r : AtomicHoldResult) → HasFlag r → deserialize texts (serialize texts r) ≡ ok r
  unfolding HasFlag serialize deserialize ok_variant fail_variant field_of text_eq seats_of
  deserialize-serialize (success flag hold_ref expires_at) h =
      rw (h, uuids hold_ref, times expires_at) refl
  deserialize-serialize (failure flag reason conflict_seats) h =
      rw (h, parse_reason-reason_name reason, of_items-to_items conflict_seats) refl

-- ===== src/Loadtest/Network/Keys.antt =====
-- The requests of the load test: their idempotency keys, and what their paths are not.
use transity_terminal_resv_c.Common.{
  ◌≡◌, refl, true, false, Text, codes, text_eq, none, some, is_empty,
}
use transity_terminal_resv_c.Common.Std.{trim}
use transity_terminal_resv_c.Server.Hmac.Sign.{signed_header}
use transity_terminal_resv_c.Server.Layer.{get_idempotency_key, is_write, is_cacheable}
use transity_terminal_resv_c.Loadtest.{hold_path, holds_path, json_headers, no_headers}
use transity_terminal_resv_c.Loadtest.Network.Pass.{arrived}

-- The idempotency keys of the client's requests.
pub release_unkeyed :
    (body : Text) (path : Text) (headers : Text × Text × Text)
    → get_idempotency_key (arrived (codes "DELETE") path body headers no_headers) ≡ none
unfolding get_idempotency_key signed_header text_eq
release_unkeyed body path headers = refl

pub hold_keyed :
    (body idem : Text) (headers : Text × Text × Text)
    → is_empty (trim idem) ≡ false
    → get_idempotency_key (arrived (codes "POST") holds_path body headers (json_headers idem))
      ≡ some (trim idem)
unfolding get_idempotency_key signed_header text_eq
hold_keyed body idem headers named = rw named refl

pub hold_is_write : is_write (codes "POST") ≡ true
unfolding is_write text_eq
hold_is_write = refl

pub holds_path_guarded : text_eq holds_path (codes "/api/v1/healthz") ≡ false
unfolding text_eq
holds_path_guarded = refl

pub hold_path_guarded : (r : Text) → text_eq (hold_path r) (codes "/api/v1/healthz") ≡ false
unfolding text_eq
hold_path_guarded r = refl

pub created_is_cacheable : is_cacheable 201 ≡ true
unfolding is_cacheable
created_is_cacheable = refl

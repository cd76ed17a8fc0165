-- ===== src/Server/Hmac/Unsigned.antt =====
-- What a signature does not cover.
use transity_terminal_resv_c.Common.{ℤ, ◌≡◌, ap, ◌∙◌, true, Text, codes, Option, some, ok}
use transity_terminal_resv_c.Server.Http.{Request, Libs}
use transity_terminal_resv_c.Server.State.{AppState}
use transity_terminal_resv_c.Server.Hmac.{is_allowed, authenticate}
use transity_terminal_resv_c.Server.Hmac.Laws.{Authentic-authenticate, authenticate-Authentic}

module _ (libs : Libs) (state : AppState) (now : ℤ) (req out : Request) where
  -- A request that is let through is also let through, at the same moment, with any other headers
  -- that keep the signature and the timestamp and name an allowed service, and its handler is told
  -- that service: the signature covers neither the service id nor the idempotency key.
  pub authenticate-other_headers :
      (header : Text → Option Text) (svc_id : Text)
      → authenticate libs state now req ≡ ok out
      → header (codes "x-signature") ≡ req.header (codes "x-signature")
      → header (codes "x-timestamp") ≡ req.header (codes "x-timestamp")
      → header (codes "x-service-id") ≡ some svc_id
      → is_allowed state.allowed_service_ids svc_id ≡ true
      → authenticate libs state now (record req { header = header })
        ≡ ok (record out { header = header; service = some svc_id })
  authenticate-other_headers header svc_id let_through signature timestamp named allowed =
      let a = authenticate-Authentic libs state now req out let_through in
      Authentic-authenticate libs state now (record req { header = header }) _
        (record {
          svc_id = svc_id;
          signature_hex = a.signature_hex;
          timestamp_str = a.timestamp_str;
          timestamp = a.timestamp;
          bytes = a.bytes;
          mac = a.mac;
          named = named;
          carried = signature ∙ a.carried;
          stamped = timestamp ∙ a.stamped;
          parsed = a.parsed;
          recent = a.recent;
          buffered = a.buffered;
          keyed = a.keyed;
          signed = a.signed;
          allowed = allowed;
          handed_on =
              ap (λ (r : Request). record r { header = header; service = some svc_id })
                (a.handed_on);
        })

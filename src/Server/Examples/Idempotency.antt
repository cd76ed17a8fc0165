-- ===== src/Server/Examples/Idempotency.antt =====
-- The cache and the layer.
use transity_terminal_resv_c.Common.{
  pos, ◌≡◌, ◌≢◌, ◌⊎◌, refl, ◌+ℤ◌, ◌*ℤ◌, codes, text_eq, [], ◌∷◌, some, is_none, ok, arith,
  if◌then◌else◌,
}
use transity_terminal_resv_c.Common.Std.{
  trim, trim_start, trim_end, is_whitespace, as_bytes, char_bytes,
}
use transity_terminal_resv_c.Engine.Types.{seconds}
use transity_terminal_resv_c.Engine.Database.Sql.{find_where, order_by, select_where}
use transity_terminal_resv_c.Engine.Database.Where.{at_seat}
use transity_terminal_resv_c.Engine.Hold.{
  atomic_hold, run_hold_txn, inventory_rows, is_taken, mark_inventory,
}
use transity_terminal_resv_c.Server.Routes.{post_hold}
use transity_terminal_resv_c.Server.Http.{Request}
use transity_terminal_resv_c.Server.Store.{lookup, CachedResponse, get, put}
use transity_terminal_resv_c.Server.Store.Laws.{get-put}
use transity_terminal_resv_c.Server.Layer.{
  is_write, get_idempotency_key, is_cacheable, layer, body_hash_of,
}
use transity_terminal_resv_c.Server.Layer.Key.{parts, preimage, scoped_idempotency_key_inj}
use transity_terminal_resv_c.Server.Layer.Replay.{first_response, retry_reply}
use transity_terminal_resv_c.Server.Tasks.{run_idempotency_sweep, get-run_idempotency_sweep}
use transity_terminal_resv_c.Engine.Events.{recording_publisher}
use transity_terminal_resv_c.Server.App.{handle}
use transity_terminal_resv_c.Server.App.Once.{handle_once}
use transity_terminal_resv_c.Server.Examples.{
  plain_libs, plain_codec, app_state, env_of, free_world, request_with, text_leb,
}

abbrev keyed_request : Request
keyed_request = request_with (codes "/api/v1/holds") (codes "idempotency-key") (codes "K")

handle_once_example :
    let (r, w2) =
      layer plain_libs
        (env_of (pos 0))
        (env_of (pos 2))
        (handle plain_libs plain_codec app_state (env_of (pos 1)) recording_publisher text_leb)
        keyed_request
        free_world in
    let (r', w3) =
      layer plain_libs
        (env_of (pos 3))
        (env_of (pos 5))
        (handle plain_libs plain_codec app_state (env_of (pos 4)) recording_publisher text_leb)
        keyed_request
        w2 in
    let resp =
      (handle plain_libs plain_codec app_state
        (env_of (pos 1))
        recording_publisher
        text_leb
        keyed_request
        free_world).0 in
    (r ≡ ok (first_response resp []))
    × (r'
        ≡ retry_reply plain_libs
            (text_eq (body_hash_of plain_libs (codes "{}")) (body_hash_of plain_libs (codes "{}")))
            resp.status
            [])
    × (w3 ≡ w2)
unfolding is_write get_idempotency_key trim trim_start trim_end is_whitespace text_eq is_cacheable
    lookup find_where seconds ◌+ℤ◌ ◌*ℤ◌ handle post_hold atomic_hold run_hold_txn inventory_rows
    order_by select_where at_seat is_taken mark_inventory
handle_once_example =
    handle_once plain_libs plain_codec app_state (env_of (pos 0)) (env_of (pos 1)) (env_of (pos 2))
      (env_of (pos 3)) (env_of (pos 4)) (env_of (pos 5)) recording_publisher text_leb keyed_request
      keyed_request (codes "K") (codes "K") (codes "{}") (codes "{}") [] free_world refl refl refl
      refl refl refl refl refl refl refl (omega arith) (omega arith) tt refl refl refl (omega arith)
      refl

scoped_idempotency_key_inj_example :
    (parts (codes "a") (codes "POST") (codes "/p") (codes "K")
      ≡ parts (codes "a") (codes "POST") (codes "/p") (codes "K"))
    ⊎ ((preimage (codes "a") (codes "POST") (codes "/p") (codes "K")
          ≢ preimage (codes "a") (codes "POST") (codes "/p") (codes "K"))
        × (preimage (codes "a") (codes "POST") (codes "/p") (codes "K")
            ≡ preimage (codes "a") (codes "POST") (codes "/p") (codes "K")))
unfolding as_bytes char_bytes
scoped_idempotency_key_inj_example =
    scoped_idempotency_key_inj plain_libs (codes "a") (codes "POST") (codes "/p") (codes "K")
      (codes "a") (codes "POST") (codes "/p") (codes "K") (λ x y e. e)
      (omega arith, omega arith, omega arith, omega arith)
      (omega arith, omega arith, omega arith, omega arith) refl

abbrev entry : CachedResponse
entry = record { status = 201; body = []; body_hash = codes "h" }

get-put_example :
    let absent = is_none (lookup (codes "K") (pos 0) free_world.database.committed.cache) in
    let (r, d') = put (env_of (pos 0)) (codes "K") entry free_world.database in
    (r ≡ ok absent)
    × ((get (env_of (pos 5)) (codes "K") d').0 ≡ (
        if absent
        then ok (some entry)
        else (get (env_of (pos 5)) (codes "K") free_world.database).0))
unfolding seconds ◌+ℤ◌ ◌*ℤ◌
get-put_example =
    get-put (env_of (pos 0)) (env_of (pos 5)) (codes "K") entry free_world.database tt refl refl
      (omega arith) (omega arith)

get-run_idempotency_sweep_example :
    (get
      (env_of (pos 9))
      (codes "K")
      (run_idempotency_sweep (env_of (pos 1) ∷ env_of (pos 2) ∷ []) free_world.database)).0
    ≡ (get (env_of (pos 9)) (codes "K") free_world.database).0
get-run_idempotency_sweep_example =
    get-run_idempotency_sweep (env_of (pos 9)) (codes "K") (env_of (pos 1) ∷ env_of (pos 2) ∷ [])
      free_world.database tt (omega arith, (omega arith, tt))

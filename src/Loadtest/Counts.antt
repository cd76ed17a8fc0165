-- ===== src/Loadtest/Counts.antt =====
-- What the load test counts.
use transity_terminal_resv_c.Common.{
  ℕ, ℤ, pos, zero, suc, ◌+◌, ◌≤◌, ◌<◌, ◌≡◌, refl, true, inl, inr, Text, List, Option, none, some,
  arith, Bool-cases, Option-cases, ◌%◌, codes,
}
use transity_terminal_resv_c.Common.Std.{as_bytes}
use transity_terminal_resv_c.Engine.Types.{Uuid}
use transity_terminal_resv_c.Engine.Wire.{Json}
use transity_terminal_resv_c.Server.Http.{Request, Libs}
use transity_terminal_resv_c.Server.Hmac.Sign.{sign, signed_request}
use transity_terminal_resv_c.Loadtest.{
  Crates, Stats, Draws, Answer, hold_json, holds_path, json_headers, new_stats, second_op,
  on_answer, run_one,
}
use transity_terminal_resv_c.Loadtest.Seed.{seat_name, run_ops, run_all, total}

-- The counters after one operation: at most one of the three is one higher, and the second operation
-- counts only after a hold.
record Counted {H : Type 0} (s s' : Stats H) : Type 0 where
  least : total s ≤ total s'
  most : total s' ≤ total s + 1
  held_first : s'.second_ok + s.held ≤ s.second_ok + s'.held

module _ {W H : Type 0} (crates : Crates W H) (secret : Text) (trip_id : Uuid) (seat_no : Text)
    (draws : Draws) where
  -- The second operation leaves the three counters alone.
  record Second (s s' : Stats H) : Type 0 where
    same_held : s'.held ≡ s.held
    same_conflict : s'.conflict ≡ s.conflict
    same_errors : s'.errors ≡ s.errors
    few : s'.second_ok ≤ s.second_ok + 1

  second_op-Second :
      (scenario hold_ref : Text) (s : Stats H) (w : W)
      → Second s (second_op crates secret trip_id seat_no draws scenario hold_ref s w).0
  unfolding second_op
  second_op-Second scenario hold_ref s w = ground arith

  run_one-Counted :
      (scenario : Text) (s : Stats H) (w : W)
      → Counted s (run_one crates secret trip_id seat_no draws scenario s w).0
  unfolding run_one total
  run_one-Counted scenario s w = ground arith

-- `sign` does not panic with a secret that HMAC accepts as a key.
pub sign_keyed :
    (libs : Libs) (now : ℤ) (method path body secret : Text) (mac : List ℕ → List ℕ)
    → libs.hmac_sha256 (as_bytes secret) ≡ some mac
    → (headers : Text × Text × Text) × (sign libs now method path body secret ≡ some headers)
unfolding sign
sign_keyed libs now method path body secret mac keyed =
    elim (Option-cases (sign libs now method path body secret)) [
      | inl panics ↦ absurd (ground arith)
      | inr signed ↦ signed
    ]

-- Requests can be written, the key is accepted, and 2xx answers are JSON.
pub record IsReadable {W H : Type 0} (crates : Crates W H) (secret : Text) : Type 0 where
  pub writes : (j : Json) → (t : Text) × (crates.to_string j ≡ some t)
  pub mac : List ℕ → List ℕ
  pub keyed : crates.libs.hmac_sha256 (as_bytes secret) ≡ some mac
  pub reads :
      (req : Request) (w : W) (status : ℕ) (body : List ℕ)
      → (crates.send req w).0 ≡ some (status, body)
      → crates.libs.is_success status ≡ true
      → (v : Json) × (crates.from_slice body ≡ some v)

module _ {W H : Type 0} (crates : Crates W H) (secret : Text) (trip_id : Uuid) (seat_no : Text)
    (draws : Draws) (scenario : Text) where
  second_op-total :
      (hold_ref : Text) (s : Stats H) (w : W)
      → total (second_op crates secret trip_id seat_no draws scenario hold_ref s w).0 ≡ total s
  unfolding second_op total
  second_op-total hold_ref s w = ground arith

  on_answer-total :
      (r : Option Answer) (s : Stats H) (w : W)
      → ((status : ℕ) (body : List ℕ)
          → r ≡ some (status, body)
          → crates.libs.is_success status ≡ true
          → (v : Json) × (crates.from_slice body ≡ some v))
      → total (on_answer crates secret trip_id seat_no draws scenario r s w).0 ≡ total s + 1
  unfolding on_answer total
  on_answer-total none s w reads = ground arith
  on_answer-total (some (status, body)) s w reads =
      elim (Bool-cases (crates.libs.is_success status)) [
        | inl good ↦ let (v, e) = reads status body refl good in ground (arith, good, e)
        | inr bad ↦ ground (arith, bad)
      ]

  run_one-total :
      (s : Stats H) (w : W)
      → IsReadable crates secret
      → total (run_one crates secret trip_id seat_no draws scenario s w).0 ≡ total s + 1
  unfolding run_one
  run_one-total s w readable =
      let (body, e) = readable.writes (hold_json crates trip_id seat_no) in
      let (headers, signed) =
        sign_keyed crates.libs (pos draws.now) (codes "POST") holds_path body secret readable.mac
          readable.keyed in
      let req =
        signed_request (codes "POST") holds_path body headers
          (json_headers (crates.show_uuid draws.idem)) in
      rw (e, signed)
        (on_answer-total (crates.send req w).0 s (crates.send req w).1 (readable.reads req w))

module _ {W H : Type 0} (crates : Crates W H) (secret : Text) (trip_id : Uuid) (prefix : Text)
    (seats : ℕ) (scenario : Text) (draws : ℕ → Draws) (w : W) where
  run_ops-total :
      (ops : ℕ)
      → IsReadable crates secret
      → total (run_ops crates secret trip_id prefix seats scenario draws ops (new_stats crates) w).0
        ≡ ops
  unfolding run_ops
  run_ops-total zero readable = unfold new_stats total in refl
  run_ops-total (suc i) readable =
      let (s', w') =
        run_ops crates secret trip_id prefix seats scenario draws i (new_stats crates) w in
      omega (
        arith,
        run_one-total crates secret trip_id (seat_name prefix (i % seats)) (draws i) scenario s' w'
            readable,
        run_ops-total i readable,
      )

  run_ops-Counted :
      (ops : ℕ)
      → let s =
          (run_ops crates secret trip_id prefix seats scenario draws ops (new_stats crates) w).0 in
        (total s ≤ ops) × (s.second_ok ≤ s.held)
  unfolding run_ops
  run_ops-Counted zero = unfold new_stats total in (omega arith, omega arith)
  run_ops-Counted (suc i) =
      let (s', w') =
        run_ops crates secret trip_id prefix seats scenario draws i (new_stats crates) w in
      let c =
        run_one-Counted crates secret trip_id (seat_name prefix (i % seats)) (draws i) scenario s'
          w' in
      let h = run_ops-Counted i in (omega (arith, c.most, h.0), omega (arith, c.held_first, h.1))

  ran :
      (ops : ℕ)
      → 0 < seats
      → run_all crates secret trip_id prefix seats scenario draws ops (new_stats crates) w
        ≡ some (run_ops crates secret trip_id prefix seats scenario draws ops (new_stats crates) w)
  unfolding run_all
  ran zero some_seats = unfold run_ops in refl
  ran (suc i) some_seats = unfold run_ops in ground arith

  -- Whatever the server and the network do, a run over at least one seat counts each operation exactly
  -- once as held, conflict or error, and no more second operations than holds, if requests can be
  -- written and signed and the bodies of 2xx answers are JSON.
  pub run_all-total :
      (ops : ℕ)
      → 0 < seats
      → IsReadable crates secret
      → (s : Stats H) × (w' : W) × (run_all crates secret trip_id prefix seats scenario draws ops
            (new_stats crates)
            w
          ≡ some (s, w'))
        × (total s ≡ ops)
        × (s.second_ok ≤ s.held)
  run_all-total ops some_seats readable =
      (_, _, ran ops some_seats, run_ops-total ops readable, (run_ops-Counted ops).1)

-- ===== src/Server/Recorder/Client.antt =====
-- What the client of net/http sees of the calls of its writer.
use go_mini_gateway.Common.{
  ℕ, ◌%◌, ◌≡◌, ◌≢◌, ◌==◌, inl, inr, refl, sym, ◌∙◌, Bool, true, false, not, ◌&&◌, List, [], ◌∷◌,
  All, leb, ltb, arith, if◌then◌else◌,
}
use go_mini_gateway.Metrics.Registry.{i64}
use go_mini_gateway.Server.Recorder.{
  Call, header, data_, flushed, new_status_recorder, write_header, unwrap, status_code, Op,
  op_write_header, op_unwrap, perform, perform_all,
}
use go_mini_gateway.Server.Recorder.Laws.{
  taken, HeaderFree, Sends, told, status_sent, status_unsent,
}

-- A status from 100 to 199 but for 101 announces another one.
abbrev pub is_informational : ℕ → Bool
is_informational s = leb 100 s && ltb s 200 && not (s == 101)

-- The status that the client of net/http sees: the first one that is not informational; data without one
-- are sent with 200.
abbrev pub client_status : List Call → ℕ
client_status [] = 200
client_status (header s ∷ calls) = if is_informational s then client_status calls else s
client_status (data_ _ _ ∷ calls) = 200
client_status (flushed ∷ calls) = 200

-- If the handler does not go through Unwrap and sends no status 0 and no informational one, StatusCode is what the client sees, and
-- BytesWritten the bytes that its writer took, modulo 2^64.
pub recorder_client :
    (os : List Op)
    → All (Sends (λ s. (s ≢ 0) × (is_informational s ≡ false))) os
    → let (r, calls) = perform_all new_status_recorder os in
      (status_code r ≡ client_status calls) × (r.bytes_written ≡ taken calls % i64)
recorder_client os h =
    let r = (perform_all new_status_recorder os).0 in
    let (b, t) = told (λ s. (s ≢ 0) × (is_informational s ≡ false)) (omega arith, refl) os h in
    elim t [
      | inl (_, z, e) ↦
          let q : status_code r ≡ client_status (perform_all new_status_recorder os).1 =
            rw e (status_unsent r z) in
          (q, b)
      | inr (_, (n, i), (rest, e, f)) ↦
          let q : status_code r ≡ client_status (perform_all new_status_recorder os).1 =
            rw (e, i) (status_sent r r.status_code n refl) in
          (q, b)
    ]

-- Without a header of the handler the client sees 200.
client_status-HeaderFree : (calls : List Call) → HeaderFree calls → client_status calls ≡ 200
client_status-HeaderFree [] f = refl
client_status-HeaderFree (header s ∷ calls) f = absurd f
client_status-HeaderFree (data_ _ _ ∷ calls) f = refl
client_status-HeaderFree (flushed ∷ calls) f = refl

-- The first status that a handler sends is the one that the recorder tells.
first_status :
    (i : ℕ) (os : List Op)
    → let (r, calls) = perform_all new_status_recorder (op_write_header i ∷ os) in
      (more : List Call) × (calls ≡ header i ∷ more)
unfolding perform_all perform write_header new_status_recorder
first_status i os = (_, refl)

-- An informational status hides every one behind it: whatever the handler does then by WriteHeader, Write,
-- Flush and SetRouteID, and not through Unwrap, the client sees 200 and StatusCode is the informational one.
pub informational_hides_status :
    (i : ℕ) (os : List Op)
    → is_informational i ≡ true
    → All (Sends (λ _. Unit)) os
    → let (r, calls) = perform_all new_status_recorder (op_write_header i ∷ os) in
      (client_status calls ≡ 200) × (status_code r ≡ i)
informational_hides_status i os h sends =
    let r = (perform_all new_status_recorder (op_write_header i ∷ os)).0 in
    let calls = (perform_all new_status_recorder (op_write_header i ∷ os)).1 in
    let (_, t) = told (λ _. Unit) tt (op_write_header i ∷ os) (tt, sends) in
    let (more, first) = first_status i os in
    elim t [
      | inl (_, _, e) ↦ absurd (let x : header i ∷ more ≡ [] = sym first ∙ e in cc)
      | inr (_, _, (rest, e, f)) ↦
          let same : r.status_code ≡ i = let x = sym e ∙ first in cc in
          let ne : i ≢ 0 = λ z. ground (arith, h, z) in
          let seen : client_status calls ≡ 200 =
            rw (e, same, h) (client_status-HeaderFree rest f) in
          (seen, status_sent r i ne same)
    ]

-- An answer that goes through Unwrap alone is not counted: the client sees its status, as 101 of an upgrade,
-- and the recorder tells 200 and no bytes.
unwrap_unseen :
    (s : ℕ) (calls : List Call)
    → is_informational s ≡ false
    → let (r, sent) = perform_all new_status_recorder (op_unwrap (header s ∷ calls) ∷ []) in
      (client_status sent ≡ s) × (status_code r ≡ 200) × (r.bytes_written ≡ 0)
unfolding perform_all perform unwrap new_status_recorder status_code
unwrap_unseen s calls h = (rw h refl, refl, refl)

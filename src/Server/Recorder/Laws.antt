-- ===== src/Server/Recorder/Laws.antt =====
-- What the recorder says about what the wrapped writer was sent.
use mathlib.Core.List.{append_assoc, append-nil}
use go_mini_gateway.Common.{
  ℕ, ◌+◌, ◌%◌, ◌≡◌, ◌≢◌, ◌⊎◌, inl, inr, refl, sym, ap, ◌∙◌, is_empty, true, false, List, [], ◌∷◌,
  ◌++◌, All, Bool-cases, arith,
}
use go_mini_gateway.Metrics.Registry.{i64}
use go_mini_gateway.Server.Recorder.{
  StatusRecorder, Call, header, data_, flushed, new_status_recorder, write_header, write, flush,
  ensure_header, status_code, set_route_id, Op, op_write_header, op_write, op_flush,
  op_set_route_id, op_unwrap, perform, perform_all,
}

-- The bytes that the writer took.
abbrev pub taken : List Call → ℕ
taken [] = 0
taken (header _ ∷ calls) = taken calls
taken (data_ _ n ∷ calls) = n + taken calls
taken (flushed ∷ calls) = taken calls

-- No header among the calls.
abbrev pub HeaderFree : List Call → Type 0
HeaderFree [] = Unit
HeaderFree (header _ ∷ calls) = ⊥
HeaderFree (data_ _ _ ∷ calls) = HeaderFree calls
HeaderFree (flushed ∷ calls) = HeaderFree calls

-- The handler answers by the methods of the recorder, not through Unwrap, and the statuses that it sends by
-- itself satisfy a predicate.
abbrev pub Sends : (ℕ → Type 0) → Op → Type 0
Sends P (op_write_header status) = P status
Sends P (op_write _ _) = Unit
Sends P op_flush = Unit
Sends P (op_set_route_id _) = Unit
Sends P (op_unwrap _) = ⊥

taken-append : (as_ bs : List Call) → taken (as_ ++ bs) ≡ taken as_ + taken bs
taken-append [] bs = omega arith
taken-append (header _ ∷ as_) bs = taken-append as_ bs
taken-append (data_ _ n ∷ as_) bs = omega (arith, taken-append as_ bs)
taken-append (flushed ∷ as_) bs = taken-append as_ bs

HeaderFree-append : (as_ bs : List Call) → HeaderFree as_ → HeaderFree bs → HeaderFree (as_ ++ bs)
HeaderFree-append [] bs a b = b
HeaderFree-append (header _ ∷ as_) bs a b = absurd a
HeaderFree-append (data_ _ _ ∷ as_) bs a b = HeaderFree-append as_ bs a b
HeaderFree-append (flushed ∷ as_) bs a b = HeaderFree-append as_ bs a b

first_header :
    (r : StatusRecorder) (s : ℕ)
    → r.wrote_header ≡ false
    → write_header r s ≡ (record r { status_code = s; wrote_header = true }, header s ∷ [])
unfolding write_header
first_header r s w = ground arith

later_header : (r : StatusRecorder) (s : ℕ) → r.wrote_header ≡ true → write_header r s ≡ (r, [])
unfolding write_header
later_header r s w = ground arith

-- Write and Flush send the status 200 if none was sent.
ensure_header-eq : (r : StatusRecorder) → ensure_header r ≡ write_header r 200
unfolding ensure_header write_header
ensure_header-eq r = ground arith

module _ (P : ℕ → Type 0) (ok : P 200) where
  -- What the recorder tells about the calls of the writer: nothing was sent and no status is set; or the
  -- calls begin with a header, the only one, which is the status. The bytes are those taken.
  abbrev pub Tells : StatusRecorder → List Call → Type 0
  Tells r calls =
      (r.bytes_written ≡ taken calls % i64)
      × (((r.wrote_header ≡ false) × (r.status_code ≡ 0) × (calls ≡ []))
          ⊎ ((r.wrote_header ≡ true)
              × P r.status_code
              × ((rest : List Call) × (calls ≡ header r.status_code ∷ rest) × HeaderFree rest)))

  Tells-write_header :
      (r : StatusRecorder) (calls : List Call) (s : ℕ)
      → P s
      → Tells r calls
      → let (r', more) = write_header r s in Tells r' (calls ++ more) × (r'.wrote_header ≡ true)
  Tells-write_header r calls s n (b, inl (w, z, e)) =
      let zero_ : r.bytes_written ≡ 0 = b ∙ ap (λ c. taken c % i64) e in
      rw (first_header r s w, e) ((zero_, inr (refl, n, ([], refl, tt))), refl)
  Tells-write_header r calls s n (b, inr (w, z, (rest, e, f))) =
      rw (later_header r s w, append-nil) ((b, inr (w, z, (rest, e, f))), w)

  -- A call that sends no header.
  Tells-send :
      (r : StatusRecorder) (calls : List Call) (c : Call) (n : ℕ)
      → HeaderFree (c ∷ [])
      → taken (c ∷ []) ≡ n
      → r.wrote_header ≡ true
      → Tells r calls
      → Tells (record r { bytes_written = (r.bytes_written + n) % i64 }) (calls ++ c ∷ [])
  Tells-send r calls c n f t w (b, inl (w', _, _)) = cc
  Tells-send r calls c n f t w (b, inr (_, z, (rest, e, g))) = (
    omega (arith, b, t, taken-append calls (c ∷ [])),
    inr (w, z, (rest ++ c ∷ [], ap (λ x. x ++ c ∷ []) e, HeaderFree-append rest (c ∷ []) g f)),
  )

  Tells-keep :
      (r : StatusRecorder) (calls : List Call) (c : Call)
      → HeaderFree (c ∷ [])
      → taken (c ∷ []) ≡ 0
      → r.wrote_header ≡ true
      → Tells r calls
      → Tells r (calls ++ c ∷ [])
  Tells-keep r calls c f t w (b, inl (w', _, _)) = cc
  Tells-keep r calls c f t w (b, inr (_, z, (rest, e, g))) = (
    omega (arith, b, t, taken-append calls (c ∷ [])),
    inr (w, z, (rest ++ c ∷ [], ap (λ x. x ++ c ∷ []) e, HeaderFree-append rest (c ∷ []) g f)),
  )

  step :
      (r : StatusRecorder) (calls : List Call) (o : Op)
      → Sends P o
      → Tells r calls
      → let (r', more) = perform r o in Tells r' (calls ++ more)
  unfolding perform write flush set_route_id
  step r calls (op_write_header s) h t = (Tells-write_header r calls s h t).0
  step r calls (op_write bytes n) h t =
      let (t', w) = Tells-write_header r calls 200 ok t in
      rw (ensure_header-eq r, sym (append_assoc calls (write_header r 200).1 (data_ bytes n ∷ [])))
        (Tells-send (write_header r 200).0 (calls ++ (write_header r 200).1) (data_ bytes n) n tt
          (omega arith) w t')
  step r calls op_flush h t =
      let (t', w) = Tells-write_header r calls 200 ok t in
      rw (ensure_header-eq r, sym (append_assoc calls (write_header r 200).1 (flushed ∷ [])))
        (Tells-keep (write_header r 200).0 (calls ++ (write_header r 200).1) flushed tt refl w t')
  step r calls (op_set_route_id id) h t = elim (Bool-cases (is_empty id)) [
    | inl e ↦ rw (e, append-nil) t
    | inr e ↦ rw (e, append-nil) t
  ]
  step r calls (op_unwrap cs) h t = absurd h

  Tells-perform_all :
      (r : StatusRecorder) (calls : List Call) (os : List Op)
      → All (Sends P) os
      → Tells r calls
      → let (r', more) = perform_all r os in Tells r' (calls ++ more)
  unfolding perform_all
  Tells-perform_all r calls [] h t = rw append-nil t
  Tells-perform_all r calls (o ∷ os) (x, h) t =
      let (r', more) = perform r o in
      rw (sym (append_assoc calls more (perform_all r' os).1))
        (Tells-perform_all r' (calls ++ more) os h (step r calls o x t))

  Tells-new : Tells new_status_recorder []
  unfolding new_status_recorder
  Tells-new = (refl, inl (refl, refl, refl))

  pub told :
      (os : List Op)
      → All (Sends P) os
      → let (r, calls) = perform_all new_status_recorder os in Tells r calls
  told os h = Tells-perform_all new_status_recorder [] os h Tells-new

pub status_sent : (r : StatusRecorder) (s : ℕ) → s ≢ 0 → r.status_code ≡ s → status_code r ≡ s
unfolding status_code
status_sent r s n e = ground arith

pub status_unsent : (r : StatusRecorder) → r.status_code ≡ 0 → status_code r ≡ 200
unfolding status_code
status_unsent r e = ground arith

-- Whatever a handler does by WriteHeader, Write, Flush and SetRouteID, if it does not go to the wrapped writer
-- by Unwrap and sends no status 0: the writer was sent nothing, and StatusCode is 200; or the first call of
-- the writer is a header with the StatusCode, and no other header follows. BytesWritten is the number of bytes
-- that the writer took, modulo 2^64.
pub recorder_lem :
    (os : List Op)
    → All (Sends (λ s. s ≢ 0)) os
    → let (r, calls) = perform_all new_status_recorder os in
      (r.bytes_written ≡ taken calls % i64)
      × (((calls ≡ []) × (status_code r ≡ 200))
          ⊎ ((rest : List Call) × (calls ≡ header (status_code r) ∷ rest) × HeaderFree rest))
recorder_lem os h =
    let r = (perform_all new_status_recorder os).0 in
    let (b, t) = told (λ s. s ≢ 0) (omega arith) os h in
    elim t [
      | inl (_, z, e) ↦ (b, inl (e, status_unsent r z))
      | inr (_, n, (rest, e, f)) ↦ (b, inr (rest, rw (status_sent r r.status_code n refl) e, f))
    ]

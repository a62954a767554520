-- ===== src/Proxy/Handler/Serve.antt =====
-- An outage of the only upstream of a route, from its first failing answer to the 503 of the gateway.
use go_mini_gateway.Common.{
  ℕ, ◌+◌, ◌-◌, ◌%◌, ◌≤◌, ◌<◌, ◌≡◌, refl, ap, ◌∙◌, Text, Time, true, false, Option, none, some, List,
  [], ◌∷◌, ◌++◌, arith, length, All, leb, codes, if◌then◌else◌, itoa,
}
use go_mini_gateway.Http.{Reply}
use go_mini_gateway.Health.Checker
use go_mini_gateway.Proxy.Breaker
use go_mini_gateway.Proxy.Breaker.{CircuitBreaker, closed, opened}
use go_mini_gateway.Proxy.Upstream.{
  Upstream, Handler, u64, try_acquire, record_failure, select_from, select_upstream, index_of,
}
use go_mini_gateway.Proxy.Handler.{
  Request, Outgoing, Answer, responded, failed, finish, no_upstream, serve_http, forward, chosen_of,
  rewrite_request,
}

-- An answer that counts as a failure: a status from 500 on, or an error of the transport.
abbrev pub IsFailing : Answer → Type 0
IsFailing (responded resp) = 500 ≤ resp.status
IsFailing (failed e) = Unit

-- A request, what the upstream would answer it, and when it is selected, sent and answered.
pub record Trial : Type 0 where
  pub request : Request
  pub backend : Outgoing → Answer
  pub asked : Time
  pub sent : Time
  pub received : Time

unfoldable pub serve : Handler → Trial → Handler × Option Reply
serve h t = serve_http t.backend h t.request (λ _. t.asked) t.sent t.received

unfoldable pub serve_all : Handler → List Trial → Handler
unfolding serve
serve_all h [] = h
serve_all h (t ∷ ts) = serve_all (serve h t).0 ts

-- The route has one upstream, with a circuit breaker and no health state.
pub record Alone (h : Handler) (c : CircuitBreaker) : Type 0 where
  pub upstream : Upstream
  pub only : h.upstreams ≡ upstream ∷ []
  pub active : upstream.active_health ≡ none
  pub passive : upstream.passive_health ≡ none
  pub breaker : upstream.circuit_breaker ≡ some c

finish_failing :
    (h : Handler) (u : Upstream) (answer : Answer) (now : Time)
    → h.upstreams ≡ u ∷ []
    → IsFailing answer
    → (reason : Text) × ((finish h 0 answer now).0.upstreams ≡ record_failure u now reason ∷ [])
unfolding finish
finish_failing h u (responded resp) now e f =
    let server_error : leb 500 resp.status ≡ true = ground arith in
    (codes "backend status=" ++ itoa resp.status, rw (e, server_error))
finish_failing h u (failed err) now e f = (err.message, rw e refl)

-- The selection among one upstream takes it or none, by its answer.
select_one :
    (clock : ℕ → Time) (start : ℕ) (u : Upstream)
    → select_from clock start 1 1 0 (u ∷ [])
      ≡ ((try_acquire u (clock 0)).0 ∷ [], if (try_acquire u (clock 0)).1 then some 0 else none)
unfolding select_from index_of
select_one clock start u =
    let first : (start + 0) % u64 % 1 ≡ 0 = omega arith in rw first (ground arith)

select_alone :
    (h : Handler) (u : Upstream) (clock : ℕ → Time)
    → h.upstreams ≡ u ∷ []
    → ((select_upstream h clock).0.upstreams ≡ (try_acquire u (clock 0)).0 ∷ [])
      × ((select_upstream h clock).1 ≡ (if (try_acquire u (clock 0)).1 then some 0 else none))
unfolding select_upstream
select_alone h u clock e =
    let s = ((h.next_index + 1) % u64 + u64 - 1) % u64 in rw (e, select_one clock s u) (refl, refl)

acquire_closed :
    (u : Upstream) (c : CircuitBreaker) (now : Time)
    → u.active_health ≡ none
    → u.passive_health ≡ none
    → u.circuit_breaker ≡ some c
    → c.state ≡ closed
    → ((try_acquire u now).0 ≡ u) × ((try_acquire u now).1 ≡ true)
unfolding try_acquire Checker.available Breaker.allow
acquire_closed u c now a p b s = rw (a, p, b, s) (refl, refl)

acquire_opened :
    (u : Upstream) (c : CircuitBreaker) (now : Time)
    → u.active_health ≡ none
    → u.passive_health ≡ none
    → u.circuit_breaker ≡ some c
    → c.state ≡ opened
    → now < c.next_attempt_at
    → (try_acquire u now).1 ≡ false
unfolding try_acquire Checker.available Breaker.allow
acquire_opened u c now a p b s l = rw (a, p, b, s) (ground arith)

abbrev forwarded : Trial → Handler × Option ℕ → Handler × Option Reply
forwarded t s = forward t.backend t.request (λ _. t.asked) t.sent t.received s (chosen_of s)

serve_accepted :
    (h : Handler) (u : Upstream) (t : Trial)
    → h.upstreams ≡ u ∷ []
    → (try_acquire u t.asked).0 ≡ u
    → (try_acquire u t.asked).1 ≡ true
    → (g : Handler) × (o : Outgoing) × (g.upstreams ≡ u ∷ [])
      × (serve h t ≡ finish g 0 (t.backend o) t.received)
unfolding serve serve_http
serve_accepted h u t e same ok =
    let s = select_upstream h (λ _. t.asked) in
    let (us, chosen) = select_alone h u (λ _. t.asked) e in
    let first : s.1 ≡ some 0 = rw (chosen, ok) in
    let only : s.0.upstreams ≡ u ∷ [] = rw (us, same) in
    (
      s.0,
      rewrite_request s.0 u t.request t.sent,
      only,
      ap (forwarded t) (λ i. (s.0, first i)) ∙ rw (only, forward),
    )

select_upstream-route_id :
    (h : Handler) (clock : ℕ → Time) → (select_upstream h clock).0.route_id ≡ h.route_id
unfolding select_upstream
select_upstream-route_id h clock = ground arith

no_upstream-route_id : (g h : Handler) → g.route_id ≡ h.route_id → no_upstream g ≡ no_upstream h
unfolding no_upstream
no_upstream-route_id g h e = rw e

serve_refused :
    (h : Handler) (u : Upstream) (t : Trial)
    → h.upstreams ≡ u ∷ []
    → (try_acquire u t.asked).1 ≡ false
    → (serve h t).1 ≡ some (no_upstream h)
unfolding serve serve_http
serve_refused h u t e refused =
    let s = select_upstream h (λ _. t.asked) in
    let (us, chosen) = select_alone h u (λ _. t.asked) e in
    let none_left : s.1 ≡ none = rw (chosen, refused) in
    ap (λ x. (forwarded t x).1) (λ i. (s.0, none_left i))
    ∙ ap some (no_upstream-route_id s.0 h (select_upstream-route_id h (λ _. t.asked)))

record_failure-Alone :
    (h g : Handler) (c : CircuitBreaker) (now : Time) (reason : Text) (a : Alone h c)
    → g.upstreams ≡ record_failure a.upstream now reason ∷ []
    → Alone g (Breaker.record_failure c now reason)
unfolding record_failure
record_failure-Alone h g c now reason a e = record {
  upstream = record_failure a.upstream now reason;
  only = e;
  active = a.active;
  passive = rw (a.passive);
  breaker = rw (a.breaker);
}

serve_failing :
    (h : Handler) (c : CircuitBreaker) (t : Trial)
    → Alone h c
    → c.state ≡ closed
    → ((o : Outgoing) → IsFailing (t.backend o))
    → (reason : Text) × Alone (serve h t).0 (Breaker.record_failure c t.received reason)
serve_failing h c t a s f =
    let (same, ok) = acquire_closed a.upstream c t.asked a.active a.passive a.breaker s in
    let (g, o, only, e) = serve_accepted h a.upstream t a.only same ok in
    let (reason, upstreams) = finish_failing g a.upstream (t.backend o) t.received only (f o) in
    (
      reason,
      record_failure-Alone h (serve h t).0 c t.received reason a
          (ap (λ (x : Handler × Option Reply). x.0.upstreams) e ∙ upstreams),
    )

last_failure :
    (c : CircuitBreaker) (now : Time) (reason : Text)
    → c.state ≡ closed
    → c.failure_threshold ≤ c.consecutive_failures + 1
    → let d = Breaker.record_failure c now reason in
      (d.state ≡ opened) × (d.next_attempt_at ≡ now + c.open_duration)
unfolding Breaker.record_failure
last_failure c now reason s h = ground arith

early_failure :
    (c : CircuitBreaker) (now : Time) (reason : Text)
    → c.state ≡ closed
    → c.consecutive_failures + 1 < c.failure_threshold
    → let d = Breaker.record_failure c now reason in
      (d.state ≡ closed)
      × (d.consecutive_failures ≡ c.consecutive_failures + 1)
      × (d.failure_threshold ≡ c.failure_threshold)
      × (d.open_duration ≡ c.open_duration)
unfolding Breaker.record_failure
early_failure c now reason s h = ground arith

-- Every answer that the trial may get is a failure.
abbrev pub Fails : Trial → Type 0
Fails t = (o : Outgoing) → IsFailing (t.backend o)

serve_all-opened :
    (ts : List Trial) (h : Handler) (c : CircuitBreaker) (last : Trial)
    → Alone h c
    → c.state ≡ closed
    → All Fails ts
    → Fails last
    → c.consecutive_failures + length ts + 1 ≡ c.failure_threshold
    → (d : CircuitBreaker) × Alone (serve_all h (ts ++ last ∷ [])) d
      × (d.state ≡ opened)
      × (d.next_attempt_at ≡ last.received + c.open_duration)
unfolding serve_all
serve_all-opened [] h c last a s f fl n =
    let (reason, b) = serve_failing h c last a s fl in
    let (open_now, until) = last_failure c last.received reason s (omega arith) in
    (Breaker.record_failure c last.received reason, b, open_now, until)
serve_all-opened (t ∷ ts) h c last a s (f, fs) fl n =
    let (reason, b) = serve_failing h c t a s f in
    let (s', more, same, duration) = early_failure c t.received reason s (omega arith) in
    let (d, b', open_now, until) =
      serve_all-opened ts (serve h t).0 (Breaker.record_failure c t.received reason) last b s' fs fl
        (omega arith) in
    (d, b', open_now, until ∙ ap (λ n. last.received + n) duration)

-- A route whose only upstream has neither active nor passive health, and a closed breaker with no failure
-- counted, and whose requests come one at a time, each behind the answer of the one before: after as many
-- requests in a row as the breaker's threshold, each answered by a status from 500 on or by a transport error,
-- a request that comes within the open duration after the last of those answers gets the gateway's 503,
-- whatever the upstream would answer.
pub outage :
    (h : Handler) (c : CircuitBreaker) (ts : List Trial) (last t : Trial)
    → Alone h c
    → c.state ≡ closed
    → c.consecutive_failures ≡ 0
    → All Fails ts
    → Fails last
    → length ts + 1 ≡ c.failure_threshold
    → t.asked < last.received + c.open_duration
    → let g = serve_all h (ts ++ last ∷ []) in (serve g t).1 ≡ some (no_upstream g)
outage h c ts last t a s z fs fl n early =
    let (d, b, open_now, until) = serve_all-opened ts h c last a s fs fl (omega arith) in
    serve_refused (serve_all h (ts ++ last ∷ [])) b.upstream t b.only
      (acquire_opened b.upstream d t.asked b.active b.passive b.breaker open_now (omega arith))

-- ===== src/Server/Lifecycle/Laws.antt =====
-- What the loops of Start and Shutdown receive.
use mathlib.Core.List.{Memᴰ}
use mathlib.Core.List.Memᴰ
use go_mini_gateway.Common.{
  ℕ, zero, suc, ◌≤◌, ◌≡◌, ◌↔◌, refl, ap, Text, Bool, false, Option, none, some, List, [], ◌∷◌, map,
  All, arith, length, Bool-cases, inl, inr,
}
use go_mini_gateway.Server.Lifecycle.{
  ServerError, stopped_with_error, receive, join, receive_all, shutdown_error, shutdown,
  start_error, start,
}

pub length-map : {A B : Type 0} (f : A → B) (xs : List A) → length (map f xs) ≡ length xs
length-map f [] = refl
length-map f (x ∷ xs) = ap suc (length-map f xs)

module _ {E : Type 0} where
  -- The loop of Start returns nil exactly when it has received all it waits for, and nothing of it is an
  -- error.
  receive_nil_iff :
      (n : ℕ) (ch : List (Option (ServerError E)))
      → length ch ≤ n
      → (receive n ch ≡ some none) ↔ ((length ch ≡ n) × All (λ o. o ≡ none) ch)
  unfolding receive
  receive_nil_iff zero [] h = ground arith
  receive_nil_iff zero (o ∷ ch) h = ground arith
  receive_nil_iff (suc n) [] h = ground arith
  receive_nil_iff (suc n) (none ∷ ch) h = ground (arith, receive_nil_iff n ch (omega arith))
  receive_nil_iff (suc n) (some e ∷ ch) h = ground arith

  receive_error :
      (n : ℕ) (ch : List (Option (ServerError E))) (e : ServerError E)
      → receive n ch ≡ some (some e)
      → Memᴰ (some e) ch
  unfolding receive
  receive_error zero ch e h = cc
  receive_error (suc n) [] e h = cc
  receive_error (suc n) (none ∷ ch) e h = Memᴰ.tail (receive_error n ch e h)
  receive_error (suc n) (some d ∷ ch) e h = Memᴰ.head cc

  -- What is enough is received.
  receive_total :
      (n : ℕ) (ch : List (Option (ServerError E)))
      → n ≤ length ch
      → (r : Option (ServerError E)) × (receive n ch ≡ some r)
  unfolding receive
  receive_total zero ch h = (none, refl)
  receive_total (suc n) [] h = elim (h) [ ]
  receive_total (suc n) (none ∷ ch) h = receive_total n ch (omega arith)
  receive_total (suc n) (some e ∷ ch) h = (some e, refl)

  receive_all_total :
      (n : ℕ) (result : List (ServerError E)) (ch : List (Option (ServerError E)))
      → n ≤ length ch
      → (r : List (ServerError E)) × (receive_all n result ch ≡ some r)
  unfolding receive_all
  receive_all_total zero result ch h = (result, refl)
  receive_all_total (suc n) result [] h = elim (h) [ ]
  receive_all_total (suc n) result (o ∷ ch) h = receive_all_total n (join result o) ch (omega arith)

  pub shutdown_total :
      (servers : List Text) (reports : List (Text × Option E))
      → length servers ≤ length reports
      → (r : List (ServerError E)) × (shutdown servers reports ≡ some r)
  unfolding shutdown
  shutdown_total servers reports h =
      receive_all_total (length servers) [] (map shutdown_error reports)
        (omega (arith, length-map shutdown_error reports))

  module _ (is_server_closed : E → Bool) where
    all_nil :
        (stopped : List (Text × Option E))
        → All (λ o. o ≡ none) (map (start_error is_server_closed) stopped)
          ↔ All (λ r. start_error is_server_closed r ≡ none) stopped
    all_nil [] = ground arith
    all_nil (r ∷ stopped) = ground (arith, all_nil stopped)

    -- Start returns nil exactly when all its servers have stopped, each without an error or with
    -- ErrServerClosed.
    pub start_nil_iff :
        (servers : List Text) (stopped : List (Text × Option E))
        → length stopped ≤ length servers
        → (start is_server_closed servers stopped ≡ some none) ↔ (
            (length stopped ≡ length servers)
            × All (λ r. start_error is_server_closed r ≡ none) stopped)
    unfolding start
    start_nil_iff servers stopped h =
        let e = length-map (start_error is_server_closed) stopped in
        let (to, from) =
          receive_nil_iff (length servers) (map (start_error is_server_closed) stopped)
            (omega (arith, e)) in
        let (out, back) = all_nil stopped in
        (
          λ k. let (n, all) = to k in (omega (arith, e, n), out all),
          λ (n, all). from (omega (arith, e, n), back all),
        )

    sent_error :
        (stopped : List (Text × Option E)) (e : ServerError E)
        → Memᴰ (some e) (map (start_error is_server_closed) stopped)
        → (name : Text) × (cause : E) × Memᴰ (name, some cause) stopped
          × (is_server_closed cause ≡ false)
          × (e ≡ stopped_with_error name cause)
    unfolding start_error
    sent_error stopped e m =
        let ((name, o), sent, h) = Memᴰ.of_map (start_error is_server_closed) stopped m in
        go name o sent h
      where
        go :
            (name : Text) (o : Option E)
            → Memᴰ (name, o) stopped
            → start_error is_server_closed (name, o) ≡ some e
            → (name : Text) × (cause : E) × Memᴰ (name, some cause) stopped
              × (is_server_closed cause ≡ false)
              × (e ≡ stopped_with_error name cause)
        go name none sent h = cc
        go name (some cause) sent h = elim (Bool-cases (is_server_closed cause)) [
          | inl closed ↦ ground arith
          | inr open_ ↦ (name, cause, sent, open_, ground arith)
        ]

    -- An error that Start returns is that of a server that stopped with it.
    pub start-some :
        (servers : List Text) (stopped : List (Text × Option E)) (e : ServerError E)
        → start is_server_closed servers stopped ≡ some (some e)
        → (name : Text) × (cause : E) × Memᴰ (name, some cause) stopped
          × (is_server_closed cause ≡ false)
          × (e ≡ stopped_with_error name cause)
    unfolding start
    start-some servers stopped e h =
        sent_error stopped e
          (receive_error (length servers) (map (start_error is_server_closed) stopped) e h)

    -- Start does not wait for more than what its servers send.
    pub start_total :
        (servers : List Text) (stopped : List (Text × Option E))
        → length servers ≤ length stopped
        → (r : Option (ServerError E)) × (start is_server_closed servers stopped ≡ some r)
    unfolding start
    start_total servers stopped h =
        receive_total (length servers) (map (start_error is_server_closed) stopped)
          (omega (arith, length-map (start_error is_server_closed) stopped))

-- ===== src/Server/Process/Ends.antt =====
-- How main ends, and that it does.
use go_mini_gateway.Common.{
  ℕ, ◌+◌, ◌<◌, ◌≡◌, ◌≢◌, ◌⊎◌, inl, inr, refl, sym, ap, ℤ, Text, Bool, Option, none, List, [], ◌∷◌,
  ◌++◌, All, arith, length,
}
use mathlib.Core.Path.{subst}
use go_mini_gateway.Url.{Url}
use go_mini_gateway.Config.Types.{Config}
use go_mini_gateway.Proxy.Snapshots.{Formats}
use go_mini_gateway.Server.Reload.{Server}
use go_mini_gateway.Server.Lifecycle.{start_error}
use go_mini_gateway.Server.Lifecycle.Laws.{start_total, shutdown_total}
use go_mini_gateway.Server.Process.{
  Exit, Phase, Process, servers, launch, after_shutdown, Work, stops, returns, signalled,
  shuts_down, is_shut_down, closes, ends, Reach, IsRunning,
}
use go_mini_gateway.Server.Process.Invariant.{Inv, launched-Inv, length-taken}

module _ {E : Type 0} (is_server_closed : E → Bool) where
  -- No server is in ListenAndServe, and none has stopped with another error than ErrServerClosed.
  pub record IsClean (p : Process E) : Type 0 where
    pub all_stopped : p.listening ≡ []
    pub no_error : All (λ r. start_error is_server_closed r ≡ none) p.stopped

  module _ (accepts : List Text → Text → Bool) (parse_url : Text → Option Url)
      (parse_duration : Text → Option ℤ) (unmarshal : Text → Option Config) (f : Formats) where
    -- The steps that are left once main has left its select.
    abbrev to_come : ℕ → Phase E → ℕ
    to_come pending Phase.selecting = 0
    to_come pending Phase.shutting_down = pending + 3
    to_come pending Phase.closing = 2
    to_come pending Phase.draining = 1
    to_come pending (Phase.exited x) = 0

    abbrev pub remaining : Process E → ℕ
    remaining p = length p.listening + to_come (length p.pending) p.phase

    Work-remaining :
        {p q : Process E}
        → Work accepts parse_url parse_duration unmarshal f is_server_closed p q
        → p.phase ≢ Phase.selecting
        → remaining q < remaining p
    unfolding after_shutdown
    Work-remaining {p} (stops before after name result running e) n =
        omega (arith, length-taken before after p.listening name e)
    Work-remaining {p} (returns result e received) n = absurd (n e)
    Work-remaining {p} (signalled e) n = absurd (n e)
    Work-remaining {p} (shuts_down before after name result e taken) n = omega (
      arith,
      length-taken before after p.pending name taken,
      ap (to_come (length p.pending)) e,
      ap (to_come (length (before ++ after))) e,
    )
    Work-remaining {p} (is_shut_down [] e received) n =
        omega (arith, ap (to_come (length p.pending)) e)
    Work-remaining {p} (is_shut_down (d ∷ errors) e received) n =
        omega (arith, ap (to_come (length p.pending)) e)
    Work-remaining {p} (closes close_server e) n = omega (arith, ap (to_come (length p.pending)) e)
    Work-remaining {p} (ends result e received) n = omega (arith, ap (to_come (length p.pending)) e)

    -- While a server listens its goroutine may send, and otherwise main has what it waits for.
    progress :
        (p : Process E)
        → Inv is_server_closed p
        → p.phase ≢ Phase.selecting
        → ((x : Exit E) × (p.phase ≡ Phase.exited x))
          ⊎ ((q : Process E) × Work accepts parse_url parse_duration unmarshal f is_server_closed p
                q)
    progress p v n = go p.phase refl
      where
        in_shutdown :
            (pending : List Text)
            → p.pending ≡ pending
            → p.phase ≡ Phase.shutting_down
            → (q : Process E) × Work accepts parse_url parse_duration unmarshal f is_server_closed p
                q
        in_shutdown [] none_left e =
            let (errors, received) =
              shutdown_total (servers p) p.reports
                (omega (arith, v.waits e, ap length none_left)) in
            (_, is_shut_down errors e received)
        in_shutdown (name ∷ rest) left e = (_, shuts_down [] rest name none e left)

        at_end :
            (listening : List Text)
            → p.listening ≡ listening
            → p.phase ≡ Phase.draining
            → (q : Process E) × Work accepts parse_url parse_duration unmarshal f is_server_closed p
                q
        at_end [] none_left e =
            let (result, received) =
              start_total is_server_closed (servers p) p.stopped
                (omega (arith, v.counted, ap length none_left)) in
            (_, ends result e received)
        at_end (name ∷ rest) left e = (_, stops [] rest name none (subst IsRunning (sym e) tt) left)

        go :
            (phase : Phase E)
            → p.phase ≡ phase
            → ((x : Exit E) × (p.phase ≡ Phase.exited x))
              ⊎ ((q : Process E) × Work accepts parse_url parse_duration unmarshal f
                    is_server_closed p q)
        go Phase.selecting e = absurd (n e)
        go Phase.shutting_down e = inr (in_shutdown p.pending refl e)
        go Phase.closing e = inr (_, closes (λ name. none) e)
        go Phase.draining e = inr (at_end p.listening refl e)
        go (Phase.exited x) e = inl (x, e)

    -- Once main has left its select, in any order of the goroutines: it has ended or something can still move,
    -- and each move but a reload brings the number of those that are left down.
    pub main_ends :
        (s : Server) (timeout : ℤ) (p : Process E)
        → Reach accepts parse_url parse_duration unmarshal f is_server_closed (launch s timeout) p
        → p.phase ≢ Phase.selecting
        → (((x : Exit E) × (p.phase ≡ Phase.exited x))
            ⊎ ((q : Process E) × Work accepts parse_url parse_duration unmarshal f is_server_closed
                  p q))
          × ((q : Process E)
              → Work accepts parse_url parse_duration unmarshal f is_server_closed p q
              → remaining q < remaining p)
    main_ends s timeout p r n = (
      progress p
          (launched-Inv is_server_closed accepts parse_url parse_duration unmarshal f s timeout r)
          n,
      λ q w. Work-remaining w n,
    )

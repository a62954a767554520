-- ===== src/Server/Process/Invariant.antt =====
-- What holds of the process at each of its steps.
use mathlib.Core.Path.{subst}
use go_mini_gateway.Common.{
  ◌+◌, ◌≡◌, inl, inr, refl, sym, ap, ◌∙◌, ℤ, Text, Bool, Option, none, some, List, [], ◌∷◌, ◌++◌,
  arith, length, length-append,
}
use go_mini_gateway.Url.{Url}
use go_mini_gateway.Config.Types.{Config}
use go_mini_gateway.Proxy.Snapshots.{Formats}
use go_mini_gateway.Server.Reload.{Server, install}
use go_mini_gateway.Server.Reload.Consistent.{Attempt}
use go_mini_gateway.Server.Reload.Exchange.{reload_cases}
use go_mini_gateway.Server.Lifecycle.{ServerError, active_http_servers, start}
use go_mini_gateway.Server.Process.{
  IsRunning, Exit, exit_error, Phase, Process, servers, launch, exit_at_select, exit_at_end,
  after_shutdown, Work, stops, returns, signalled, shuts_down, is_shut_down, closes, ends, reloaded,
  Step, works, reloads, Reach, here, next,
}

-- One is taken out of a list.
pub length-taken :
    {A : Type 0} (before after xs : List A) (a : A)
    → xs ≡ (before ++ a ∷ after)
    → length xs ≡ length (before ++ after) + 1
length-taken before after xs a e =
    ap length e ∙ omega (arith, length-append before (a ∷ after), length-append before after)

module _ {E : Type 0} where
  error_at_select : (r : Option (ServerError E)) → exit_error (exit_at_select r) ≡ r
  unfolding exit_at_select
  error_at_select none = refl
  error_at_select (some e) = refl

  error_at_end : (r : Option (ServerError E)) → exit_error (exit_at_end r) ≡ r
  unfolding exit_at_end
  error_at_end none = refl
  error_at_end (some e) = refl

module _ {E : Type 0} (is_server_closed : E → Bool) where
  -- Every server is in ListenAndServe or has sent; while main is in Shutdown, every server is in its Shutdown
  -- or has sent; and main has ended as Start told it.
  pub record Inv (p : Process E) : Type 0 where
    pub counted : length p.listening + length p.stopped ≡ length (servers p)
    pub fresh : p.phase ≡ Phase.selecting → p.reports ≡ []
    pub waits :
        p.phase ≡ Phase.shutting_down → length p.pending + length p.reports ≡ length (servers p)
    pub ended :
        (x : Exit E)
        → p.phase ≡ Phase.exited x
        → start is_server_closed (servers p) p.stopped ≡ some (exit_error x)

  launch-Inv : (s : Server) (timeout : ℤ) → Inv (launch s timeout)
  unfolding launch
  launch-Inv s timeout = record {
    counted = ground arith;
    fresh = λ e. refl;
    waits = λ e. cc;
    ended = λ x e. cc;
  }

  module _ (accepts : List Text → Text → Bool) (parse_url : Text → Option Url)
      (parse_duration : Text → Option ℤ) (unmarshal : Text → Option Config) (f : Formats) where
    -- A reload keeps the servers.
    pub reloaded-servers :
        (p : Process E) (a : Attempt accepts parse_url parse_duration)
        → servers (reloaded accepts parse_url parse_duration unmarshal f is_server_closed p a)
          ≡ servers p
    unfolding install
    reloaded-servers p a =
        ap active_http_servers
          (elim (reload_cases accepts parse_url parse_duration a.read_file unmarshal a.lookup_env f
            a.now p.server) [
              | inl (same, _, _) ↦ ap (λ s. s.admin_http_addr) same
              | inr (c, b, l, k, r, new, _, _) ↦ ap (λ s. s.admin_http_addr) new
            ])

    Work-Inv :
        {p q : Process E}
        → Work accepts parse_url parse_duration unmarshal f is_server_closed p q
        → Inv p
        → Inv q
    unfolding after_shutdown
    Work-Inv {p} (stops before after name result running e) v = record {
      counted = omega (
        arith,
        v.counted,
        length-taken before after p.listening name e,
        length-append p.stopped ((name, result) ∷ []),
      );
      fresh = v.fresh;
      waits = v.waits;
      ended = λ x h. absurd (subst IsRunning h running);
    }
    Work-Inv {p} (returns result e received) v = record {
      counted = v.counted;
      fresh = λ h. cc;
      waits = λ h. cc;
      ended = λ x h.
          let same : exit_at_select result ≡ x = cc in
          received ∙ ap some (sym (error_at_select result) ∙ ap exit_error same);
    }
    Work-Inv {p} (signalled e) v = record {
      counted = v.counted;
      fresh = λ h. cc;
      waits = λ h. omega (arith, ap length (v.fresh e));
      ended = λ x h. cc;
    }
    Work-Inv {p} (shuts_down before after name result e taken) v = record {
      counted = v.counted;
      fresh = λ h. cc;
      waits = λ h. omega (
        arith,
        v.waits e,
        length-taken before after p.pending name taken,
        length-append p.reports ((name, result) ∷ []),
      );
      ended = λ x h. cc;
    }
    Work-Inv {p} (is_shut_down [] e received) v = record {
      counted = v.counted;
      fresh = λ h. cc;
      waits = λ h. cc;
      ended = λ x h. cc;
    }
    Work-Inv {p} (is_shut_down (d ∷ errors) e received) v = record {
      counted = v.counted;
      fresh = λ h. cc;
      waits = λ h. cc;
      ended = λ x h. cc;
    }
    Work-Inv {p} (closes close_server e) v = record {
      counted = v.counted;
      fresh = λ h. cc;
      waits = λ h. cc;
      ended = λ x h. cc;
    }
    Work-Inv {p} (ends result e received) v = record {
      counted = v.counted;
      fresh = λ h. cc;
      waits = λ h. cc;
      ended = λ x h.
          let same : exit_at_end result ≡ x = cc in
          received ∙ ap some (sym (error_at_end result) ∙ ap exit_error same);
    }

    step-Inv :
        {p q : Process E}
        → Step accepts parse_url parse_duration unmarshal f is_server_closed p q
        → Inv p
        → Inv q
    step-Inv (works w) v = Work-Inv w v
    step-Inv {p} (reloads a running) v =
        let same = reloaded-servers p a in
        record {
          counted = v.counted ∙ sym (ap length same);
          fresh = v.fresh;
          waits = λ h. v.waits h ∙ sym (ap length same);
          ended = λ x h. absurd (subst IsRunning h running);
        }

    Reach-Inv :
        {p q : Process E}
        → Reach accepts parse_url parse_duration unmarshal f is_server_closed p q
        → Inv p
        → Inv q
    Reach-Inv here v = v
    Reach-Inv (next r st) v = step-Inv st (Reach-Inv r v)

    pub launched-Inv :
        (s : Server) (timeout : ℤ) {p : Process E}
        → Reach accepts parse_url parse_duration unmarshal f is_server_closed (launch s timeout) p
        → Inv p
    launched-Inv s timeout r = Reach-Inv r (launch-Inv s timeout)

-- ===== src/Server/Process/Releases.antt =====
-- What becomes of the resources of the runtimes.
use mathlib.Core.List.{Memᴰ}
use mathlib.Core.List.Memᴰ
use mathlib.Core.Path.{subst}
use go_mini_gateway.Common.{
  ◌≡◌, ◌⊎◌, inl, inr, refl, sym, ap, ◌∙◌, ℤ, Text, Bool, Option, none, some, List,
}
use go_mini_gateway.Url.{Url}
use go_mini_gateway.Config.Types.{Config}
use go_mini_gateway.Proxy.Snapshots.{Formats}
use go_mini_gateway.Server.Reload.{Released, close_resource}
use go_mini_gateway.Server.Reload.Closing.{Stops, close_resource-Stops}
use go_mini_gateway.Server.Reload.Consistent.{Attempt}
use go_mini_gateway.Server.Reload.Exchange.{reload_cases}
use go_mini_gateway.Server.Lifecycle.{ServerError}
use go_mini_gateway.Server.Process.{
  Exit, Phase, Process, exit_at_select, Work, stops, returns, signalled, shuts_down, is_shut_down,
  closes, ends, reloaded, works, reloads, Reach, here, next,
}

module _ {E : Type 0} where
  -- main has not come past Shutdown.
  abbrev pub IsBefore : Phase E → Type 0
  IsBefore Phase.selecting = Unit
  IsBefore Phase.shutting_down = Unit
  IsBefore Phase.closing = ⊥
  IsBefore Phase.draining = ⊥
  IsBefore (Phase.exited Exit.returned) = Unit
  IsBefore (Phase.exited (Exit.failed_to_start e)) = Unit
  IsBefore (Phase.exited Exit.stopped) = ⊥
  IsBefore (Phase.exited (Exit.stopped_with e)) = ⊥

  IsBefore-select : (r : Option (ServerError E)) → IsBefore (Phase.exited (exit_at_select r))
  unfolding exit_at_select
  IsBefore-select none = tt
  IsBefore-select (some e) = tt

  module _ (is_server_closed : E → Bool) (accepts : List Text → Text → Bool)
      (parse_url : Text → Option Url) (parse_duration : Text → Option ℤ)
      (unmarshal : Text → Option Config) (f : Formats) where
    -- These resources were closed, or they are those of the server, and main has not come past Shutdown.
    abbrev Owned : Released → Process E → Type 0
    Owned c p = Memᴰ c p.released ⊎ (IsBefore p.phase × (close_resource p.server ≡ c))

    Work-Owned :
        {c : Released} {p q : Process E}
        → Work accepts parse_url parse_duration unmarshal f is_server_closed p q
        → Owned c p
        → Owned c q
    Work-Owned (stops before after name result running e) h = h
    Work-Owned (returns result e received) (inl m) = inl m
    Work-Owned (returns result e received) (inr (b, same)) = inr (IsBefore-select result, same)
    Work-Owned (signalled e) (inl m) = inl m
    Work-Owned (signalled e) (inr (b, same)) = inr (tt, same)
    Work-Owned (shuts_down before after name result e taken) h = h
    Work-Owned (is_shut_down errors e received) (inl m) = inl (Memᴰ.append_left _ m)
    Work-Owned {p} (is_shut_down errors e received) (inr (b, same)) =
        inl (Memᴰ.append_right p.released (Memᴰ.head (sym same)))
    Work-Owned (closes close_server e) (inl m) = inl (Memᴰ.append_left _ m)
    Work-Owned {p} (closes close_server e) (inr (b, same)) = absurd (subst IsBefore e b)
    Work-Owned (ends result e received) (inl m) = inl m
    Work-Owned (ends result e received) (inr (b, same)) = absurd (subst IsBefore e b)

    reloaded-Owned :
        {c : Released} (p : Process E) (a : Attempt accepts parse_url parse_duration)
        → Owned c p
        → Owned c (reloaded accepts parse_url parse_duration unmarshal f is_server_closed p a)
    unfolding close_resource
    reloaded-Owned p a (inl m) = inl (Memᴰ.append_left _ m)
    reloaded-Owned p a (inr (b, same)) =
        elim (reload_cases accepts parse_url parse_duration a.read_file unmarshal a.lookup_env f
          a.now p.server) [
            | inl (kept, _, _) ↦ inr (b, ap close_resource kept ∙ same)
            | inr (c, d, l, k, r, _, closed, _) ↦
                inl (Memᴰ.append_right p.released (Memᴰ.head (sym same ∙ sym closed)))
          ]

    Reach-Owned :
        {c : Released} {p q : Process E}
        → Reach accepts parse_url parse_duration unmarshal f is_server_closed p q
        → Owned c p
        → Owned c q
    Reach-Owned here h = h
    Reach-Owned (next r (works w)) h = Work-Owned w (Reach-Owned r h)
    Reach-Owned (next {q} r (reloads a running)) h = reloaded-Owned q a (Reach-Owned r h)

    owned_after :
        {c : Released} (q : Process E) → ¬ IsBefore q.phase → Owned c q → Memᴰ c q.released
    owned_after q n (inl m) = m
    owned_after q n (inr (b, same)) = absurd (n b)

    -- Whatever runtime the server had at any time before the signal, the first one or one that a reload
    -- brought: when main has come past Shutdown, what was closed holds one record of it, in which every health
    -- checker of its proxies and every one of its rate limiters was told to stop, by the reload behind it or by
    -- main.
    pub all_released :
        (p q : Process E)
        → p.phase ≡ Phase.selecting
        → Reach accepts parse_url parse_duration unmarshal f is_server_closed p q
        → ¬ IsBefore q.phase
        → (r : Released) × Memᴰ r q.released × Stops p.server r
    all_released p q e r n = (
      close_resource p.server,
      owned_after q n (Reach-Owned r (inr (subst IsBefore (sym e) tt, refl))),
      close_resource-Stops p.server,
    )

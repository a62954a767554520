-- ===== src/Server/Serving/Waiting.antt =====
-- The upstreams of the proxies, and the requests that wait for one, in any interleaving.
use mathlib.Core.List.{Memᴰ}
use mathlib.Core.Path.{subst}
use go_mini_gateway.Common.{◌⊎◌, sym, Text, Option, List, [], ◌∷◌, ◌++◌, All}
use go_mini_gateway.Http.{Reply}
use go_mini_gateway.Proxy.Upstream
use go_mini_gateway.Proxy.Upstream.{select_upstream}
use go_mini_gateway.Proxy.Handler.{Request}
use go_mini_gateway.Server.Routes.{Handler, Mux}
use go_mini_gateway.Server.Runtime.{MainHandler}
use go_mini_gateway.Server.Serving.{InFlight}
use go_mini_gateway.Server.Serving.World.{World, Step, arrives, moves, leaves, Reach, begun, later}
use go_mini_gateway.Server.Serving.Upstreams.{Proxied, Waits, advance-Keeps}

module _ (built : Text → Option Upstream.Handler) (dispatch : Mux → Request → Reply ⊎ Handler) where
  -- Every request that waits, waits for an upstream that was built.
  unfoldable pub AllWait : List InFlight → Type 0
  AllWait requests = All (λ q. Waits built q.position) requests

  pub AllWait-mem :
      (requests : List InFlight) (q : InFlight)
      → AllWait requests
      → Memᴰ q requests
      → Waits built q.position
  unfolding AllWait
  AllWait-mem [] q h m = elim m [ ]
  AllWait-mem (r ∷ requests) q (w, h) (Memᴰ.head e) =
      subst (λ (x : InFlight). Waits built x.position) (sym e) w
  AllWait-mem (r ∷ requests) q (w, h) (Memᴰ.tail m) = AllWait-mem requests q h m

  taken-AllWait :
      (before after : List InFlight) (q : InFlight)
      → AllWait (before ++ q ∷ after)
      → Waits built q.position × AllWait (before ++ after)
  unfolding AllWait
  taken-AllWait [] after q (w, h) = (w, h)
  taken-AllWait (b ∷ before) after q (w, h) =
      let (w', h') = taken-AllWait before after q h in (w', (w, h'))

  put-AllWait :
      (before after : List InFlight) (q : InFlight)
      → Waits built q.position
      → AllWait (before ++ after)
      → AllWait (before ++ q ∷ after)
  unfolding AllWait
  put-AllWait [] after q w h = (w, h)
  put-AllWait (b ∷ before) after q w (wb, h) = (wb, put-AllWait before after q w h)

  -- Each proxy has the upstreams that it was built with, and every request waits for one of them.
  pub record Inv (w : World dispatch) : Type 0 where
    pub proxied : (id : Text) → Proxied (built id) (w.store.proxies id)
    pub waiting : AllWait w.requests

  Step-Inv : {m : MainHandler} {w v : World dispatch} → Step dispatch m w v → Inv w → Inv v
  unfolding AllWait
  Step-Inv (arrives r) i = record { proxied = i.proxied; waiting = (tt, i.waiting) }
  Step-Inv {w = w} (moves before after q o e) i =
      let (wq, rest) = taken-AllWait before after q (subst AllWait e i.waiting) in
      let (proxied, wq') = advance-Keeps built dispatch w.store q o i.proxied wq in
      record { proxied = proxied; waiting = put-AllWait before after _ wq' rest }
  Step-Inv (leaves before after q r e p f) i =
      let (_, rest) = taken-AllWait before after q (subst AllWait e i.waiting) in
      record { proxied = i.proxied; waiting = rest }

  pub Reach-Inv : {m : MainHandler} {w v : World dispatch} → Reach dispatch m w v → Inv w → Inv v
  Reach-Inv begun i = i
  Reach-Inv (later r st) i = Step-Inv st (Reach-Inv r i)

-- ===== src/Server/ReloadableHandler.antt =====
-- internal/server/reloadable_handler.go. The atomic value is empty until something is stored; a load and a
-- store are single steps, and a request goes through the handler that it loaded to its end.
use go_mini_gateway.Common.{◌≡◌, refl, Option, none, some, [], codes}
use go_mini_gateway.Http.{Handler, http_error}

pub record ReloadableHandler (R S : Type 0) : Type 0 where
  pub value : Option (Handler R S)

module _ {R S : Type 0} where
  -- `http.NotFound`.
  unfoldable pub not_found : Handler R S
  unfolding http_error
  not_found r s = (http_error [] (codes "404 page not found") 404, s)

  unfoldable pub store : ReloadableHandler R S → Option (Handler R S) → ReloadableHandler R S
  unfolding not_found
  store h none = record { value = some not_found }
  store h (some handler) = record { value = some handler }

  unfoldable pub new_reloadable_handler : Option (Handler R S) → ReloadableHandler R S
  unfolding store
  new_reloadable_handler handler = store (record { value = none }) handler

  unfoldable pub serve_http : ReloadableHandler R S → Handler R S
  unfolding not_found
  serve_http h r s = elim h.value [ none ↦ not_found r s | some handler ↦ handler r s ]

  -- A request is served by what was stored last, whatever was stored before it.
  serve_http-store :
      (h : ReloadableHandler R S) (first last : Handler R S) (r : R) (s : S)
      → serve_http (store (store h (some first)) (some last)) r s ≡ last r s
  unfolding serve_http store
  serve_http-store h first last r s = refl

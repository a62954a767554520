-- ===== src/Server/Auth.antt =====
-- internal/server/admin_auth.go. SHA-256 and the header of a request are parameters.
use go_mini_gateway.Common.{
  ◌≡◌, ◌≢◌, ◌⊎◌, inl, inr, refl, ap, Text, Bool, true, false, not, ◌&&◌, ◌||◌, List, [], ◌∷◌,
  is_empty, text_eq, text_eq_iff, codes, Bool-cases, if◌then◌else◌,
}
use go_mini_gateway.Http.{Reply, Handler, http_error}
use go_mini_gateway.Server.Admin.{AdminHandler, register_admin_routes, register_pprof_routes}

abbrev pub not_configured : Reply
not_configured = http_error [] (codes "admin token is not configured") 503

abbrev pub unauthorized : Reply
unauthorized = http_error [] (codes "unauthorized") 401

unfoldable pub constant_time_token_equal : (Text → Text) → Text → Text → Bool
unfolding text_eq
constant_time_token_equal sha256 actual expected = text_eq (sha256 actual) (sha256 expected)

module _ {R S : Type 0} (sha256 : Text → Text) (header_get : R → Text → Text) where
  unfoldable pub admin_auth_middleware : Text → Handler R S → Handler R S
  unfolding constant_time_token_equal
  admin_auth_middleware admin_token next r s =
      if is_empty admin_token
      then (not_configured, s)
      else if not
          (constant_time_token_equal sha256 (header_get r (codes "X-Admin-Token")) admin_token)
      then (unauthorized, s)
      else next r s

  -- If the presented token does not collide with the configured one under SHA-256: a request is handed on
  -- exactly with the configured token; any other one gets 401, or 503 when no token is configured, and the
  -- state is as it was.
  pub admin_auth_middleware_lem :
      (admin_token : Text) (next : Handler R S) (r : R) (s : S)
      → (sha256 (header_get r (codes "X-Admin-Token")) ≡ sha256 admin_token
          → header_get r (codes "X-Admin-Token") ≡ admin_token)
      → ((admin_token ≡ []) × (admin_auth_middleware admin_token next r s ≡ (not_configured, s)))
        ⊎ ((admin_token ≢ [])
            × (header_get r (codes "X-Admin-Token") ≢ admin_token)
            × (admin_auth_middleware admin_token next r s ≡ (unauthorized, s)))
        ⊎ ((admin_token ≢ [])
            × (header_get r (codes "X-Admin-Token") ≡ admin_token)
            × (admin_auth_middleware admin_token next r s ≡ next r s))
  unfolding admin_auth_middleware constant_time_token_equal
  admin_auth_middleware_lem [] next r s h = inl (refl, refl)
  admin_auth_middleware_lem (c ∷ token) next r s h =
      let actual = header_get r (codes "X-Admin-Token") in
      let same = text_eq_iff (sha256 actual) (sha256 (c ∷ token)) in
      elim (Bool-cases (text_eq (sha256 actual) (sha256 (c ∷ token)))) [
        | inl e ↦ inr (inr (λ q. cc, h (same.0 e), rw e refl))
        | inr e ↦ inr (inl (λ q. cc, λ q. let k = same.1 (ap sha256 q) in cc, rw e refl))
      ]

-- The handler stands behind the check of the token.
abbrev is_guarded : AdminHandler → Bool
is_guarded (AdminHandler.admin_auth _) = true
is_guarded _ = false

abbrev every : (Text × AdminHandler → Bool) → List (Text × AdminHandler) → Bool
every p [] = true
every p (e ∷ es) = p e && every p es

-- Whatever is enabled, every path of the administration server is guarded by the token, but for /metrics
-- when the configuration says that it needs none.
register_admin_routes-guarded :
    (enabled pprof require_token : Bool)
    → every
        (λ e. is_guarded e.1 || (text_eq e.0 (codes "/metrics") && not require_token))
        (register_admin_routes enabled pprof require_token)
      ≡ true
unfolding register_admin_routes register_pprof_routes text_eq
register_admin_routes-guarded true true true = refl
register_admin_routes-guarded true true false = refl
register_admin_routes-guarded true false true = refl
register_admin_routes-guarded true false false = refl
register_admin_routes-guarded false pprof true = refl
register_admin_routes-guarded false pprof false = refl

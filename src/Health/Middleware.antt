-- ===== src/Health/Middleware.antt =====
-- internal/health/middleware.go, over the cell of the state that holds the checker.
use go_mini_gateway.Common.{
  ◌≡◌, Bool, true, false, Option, none, some, [], ◌∷◌, codes, arith, ◌⊎◌, inl, inr, Bool-cases,
  Option-cases, refl,
}
use go_mini_gateway.Http.{Reply, Handler, http_error, Cell}
use go_mini_gateway.Health.Checker.{Checker, available}

-- The answer while the backend is unhealthy.
abbrev pub backend_unhealthy : Reply
backend_unhealthy =
    http_error
      ((codes "Content-Type", codes "text/plain; charset=utf-8")
        ∷ (codes "X-Gateway-Backend-Health", codes "unhealthy")
        ∷ [])
      (codes "backend unhealthy") 503

module _ {R S : Type 0} (cell : Cell S (Option Checker)) where
  admit : Handler R S → R → S → Bool → Reply × S
  admit next r s true = next r s
  admit next r s false = (backend_unhealthy, s)

  unfoldable pub middleware : Handler R S → Handler R S
  unfolding admit
  middleware next r s = admit next r s (available (cell.get s))

  -- A request is handed on, with the state as it is, when there is no checker, when it has not checked
  -- yet, or when its last check was healthy; after an unhealthy check it is answered 503.
  middleware_lem :
      (next : Handler R S) (r : R) (s : S)
      → (((cell.get s ≡ none)
            ⊎ ((c : Checker) × (cell.get s ≡ some c) × ((c.checked ≡ false) ⊎ (c.healthy ≡ true))))
          × (middleware next r s ≡ next r s))
        ⊎ ((c : Checker) × (cell.get s ≡ some c)
            × (c.checked ≡ true)
            × (c.healthy ≡ false)
            × (middleware next r s ≡ (backend_unhealthy, s)))
  unfolding middleware available
  middleware_lem next r s = elim (Option-cases (cell.get s)) [
    | inl e ↦ inl (inl e, rw e)
    | inr (c, e) ↦ rw e (elim (Bool-cases c.checked) [
      | inl checked ↦ elim (Bool-cases c.healthy) [
        | inl healthy ↦ inl (inr (c, refl, inr healthy), ground arith)
        | inr ill ↦ inr (c, refl, checked, ill, ground arith)
      ]
      | inr new ↦ inl (inr (c, refl, inl new), ground arith)
    ])
  ]

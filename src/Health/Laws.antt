-- ===== src/Health/Laws.antt =====
-- What a checker's verdict says about the checks that it has made.
use go_mini_gateway.Common.{
  ◌≤◌, ◌<◌, ◌≡◌, ◌↔◌, ◌≢◌, refl, true, false, Option, some, [], ◌∷◌, List, Text, Time, arith, codes,
  has_prefix, ◌++◌,
}
use go_mini_gateway.Url.{Url}
use go_mini_gateway.Health.Checker.{
  Options, Checker, ok, new_checker, available, check_once, fix_path, Answer, create_failed,
  request_failed, response,
}

-- The checks of `loop`, each with the time of its end.
unfoldable pub check_all : Checker → List (Answer × Time) → Checker
check_all c [] = c
check_all c ((a, now) ∷ cs) = check_all (check_once c a now) cs

-- A response with a status from 200 to 299.
abbrev pub IsSuccess : Answer → Type 0
IsSuccess (create_failed _) = ⊥
IsSuccess (request_failed _) = ⊥
IsSuccess (response status) = (200 ≤ status) × (status < 300)

available-check_once :
    (c : Checker) (a : Answer) (now : Time)
    → (available (some (check_once c a now)) ≡ true) ↔ IsSuccess a
unfolding available check_once
available-check_once c (create_failed e) now = ground arith
available-check_once c (request_failed e) now = ground arith
available-check_once c (response status) now = ground arith

check_all-append :
    (cs : List (Answer × Time)) (c : Checker) (a : Answer) (now : Time)
    → check_all c (cs ++ (a, now) ∷ []) ≡ check_once (check_all c cs) a now
unfolding check_all
check_all-append [] c a now = refl
check_all-append ((b, t) ∷ cs) c a now = check_all-append cs (check_once c b t) a now

fix_path-has_prefix : (path : Text) → has_prefix (fix_path path) (codes "/") ≡ true
unfolding fix_path has_prefix
fix_path-has_prefix [] = refl
fix_path-has_prefix (c ∷ path) = ground arith

new_checker-fresh :
    (parse : Text → Option Url) (o : Options) {c : Checker}
    → new_checker parse o ≡ ok c
    → (c.checked ≡ false)
      × (c.path ≡ fix_path o.path)
      × (0 < c.interval)
      × (0 < c.timeout)
      × (c.name ≢ [])
      × (c.target.scheme ≢ [])
      × (c.target.host ≢ [])
unfolding new_checker
new_checker-fresh parse o h = ground arith

-- A checker that `NewChecker` made treats the upstream as available before its first check, and after
-- any checks exactly when the last one got a response with a status from 200 to 299.
available_iff :
    (parse : Text → Option Url) (o : Options) (c : Checker) (cs : List (Answer × Time)) (a : Answer)
    (now : Time)
    → new_checker parse o ≡ ok c
    → (available (some c) ≡ true)
      × ((available (some (check_all c (cs ++ (a, now) ∷ []))) ≡ true) ↔ IsSuccess a)
unfolding available
available_iff parse o c cs a now made = (
  ground (arith, new_checker-fresh parse o made),
  rw (check_all-append cs c a now) (available-check_once (check_all c cs) a now),
)

-- A checker is made only with a name, a target that has a scheme and a host, and a positive interval
-- and timeout; its path begins with a slash, whatever path was given.
pub new_checker-ok :
    (parse : Text → Option Url) (o : Options) (c : Checker)
    → new_checker parse o ≡ ok c
    → (c.name ≢ [])
      × (c.target.scheme ≢ [])
      × (c.target.host ≢ [])
      × (0 < c.interval)
      × (0 < c.timeout)
      × (has_prefix c.path (codes "/") ≡ true)
new_checker-ok parse o c made =
    let (_, p, i, t, n, s, h) = new_checker-fresh parse o made in
    (n, s, h, i, t, rw p (fix_path-has_prefix o.path))

-- ===== src/Config/Validate/Upstreams.antt =====
-- The upstreams of a route that `validateUpstreams` accepts, and texts that stand only once.
use go_mini_gateway.Common.{
  ℕ, ◌+◌, ◌≡◌, ◌≢◌, ◌↔◌, ◌==◌, refl, ℤ, Text, false, Option, none, some, List, [], ◌∷◌, map, All,
  is_empty, text_eq_iff, length, arith,
}
use go_mini_gateway.Url.{Url}
use go_mini_gateway.Config.Types.{UpstreamConfig}
use go_mini_gateway.Config.Validate.{
  ConfigError, fail_if, contains, timeout_error, validate_upstreams_from, validate_upstreams,
}
use go_mini_gateway.Config.Validate.Spec.{AllDistinct, IsUpstream}
use go_mini_gateway.Config.Validate.Parts.{both, address_iff}

pub given_iff : (t : Text) (e : ConfigError) → (fail_if (is_empty t) e ≡ none) ↔ (t ≢ [])
given_iff [] e = ground arith
given_iff (_ ∷ _) e = ground arith

pub some_iff {ℓ} :
    {A : Type ℓ} (xs : List A) (e : ConfigError) → (fail_if (length xs == 0) e ≡ none) ↔ (xs ≢ [])
some_iff [] e = ground arith
some_iff (_ ∷ _) e = ground arith

pub timeout_iff : (e : ConfigError) (o : Option ℤ) → (timeout_error e o ≡ none) ↔ (o ≢ none)
unfolding timeout_error
timeout_iff e none = ground arith
timeout_iff e (some d) = ground arith

-- No text of the second list stands in the first one.
abbrev pub Fresh : List Text → List Text → Type 0
Fresh seen ts = All (λ t. contains t seen ≡ false) ts

pub fresh_iff :
    (t : Text) (seen : List Text) (e : ConfigError)
    → (fail_if (contains t seen) e ≡ none) ↔ (contains t seen ≡ false)
fresh_iff t seen e = ground arith

contains-cons :
    (s t : Text) (seen : List Text)
    → (contains s (t ∷ seen) ≡ false) ↔ ((s ≢ t) × (contains s seen ≡ false))
unfolding contains
contains-cons s t seen = let e = text_eq_iff t s in ground (arith, e)

pub Fresh-cons :
    (t : Text) (seen ts : List Text) → Fresh (t ∷ seen) ts ↔ (All (λ s. s ≢ t) ts × Fresh seen ts)
Fresh-cons t seen [] = (λ _. (tt, tt), λ _. tt)
Fresh-cons t seen (s ∷ ts) =
    let c = contains-cons s t seen in
    let h = Fresh-cons t seen ts in
    (
      λ (a, b). (((c.0 a).0, (h.0 b).0), ((c.0 a).1, (h.0 b).1)),
      λ ((a, b), (d, e)). (c.1 (a, d), h.1 (b, e)),
    )

pub All-Fresh : (ts : List Text) → Fresh [] ts
unfolding contains
All-Fresh [] = tt
All-Fresh (t ∷ ts) = (refl, All-Fresh ts)

module _ (parse_url : Text → Option Url) (parse_duration : Text → Option ℤ) where
  upstreams_from_iff :
      (r i : ℕ) (seen : List Text) (us : List UpstreamConfig)
      → (validate_upstreams_from parse_url parse_duration r i seen us ≡ none) ↔ (
          All (IsUpstream parse_url) us
          × AllDistinct (map (λ u. u.id) us)
          × Fresh seen (map (λ u. u.id) us))
  unfolding validate_upstreams_from
  upstreams_from_iff r i seen [] = (λ _. (tt, tt, tt), λ _. refl)
  upstreams_from_iff r i seen (u ∷ us) =
      let ih = upstreams_from_iff r (i + 1) (u.id ∷ seen) us in
      (
        λ h.
            let (a, h1) = (both _ _).0 h in
            let (b, h2) = (both _ _).0 h1 in
            let (c, h3) = (both _ _).0 h2 in
            let (d, h4) = (both _ _).0 h3 in
            let (x, y, z) = ih.0 h4 in
            let (f, g) = (Fresh-cons _ _ _).0 z in
            (
              (
                (
                  (given_iff _ _).0 a,
                  (given_iff _ _).0 c,
                  (address_iff parse_url parse_duration _ _ _).0 d,
                ),
                x,
              ),
              (f, y),
              ((fresh_iff _ _ _).0 b, g),
            ),
        λ (((a, c, d), x), (f, y), (b, g)). (both _ _).1 (
          (given_iff _ _).1 a,
          (both _ _).1 (
            (fresh_iff _ _ _).1 b,
            (both _ _).1 (
              (given_iff _ _).1 c,
              (both _ _).1 (
                (address_iff parse_url parse_duration _ _ _).1 d,
                ih.1 (x, y, (Fresh-cons _ _ _).1 (f, g)),
              ),
            ),
          ),
        ),
      )

  pub upstreams_iff :
      (r : ℕ) (us : List UpstreamConfig)
      → (validate_upstreams parse_url parse_duration r us ≡ none)
        ↔ ((us ≢ []) × All (IsUpstream parse_url) us × AllDistinct (map (λ u. u.id) us))
  unfolding validate_upstreams
  upstreams_iff r us = (
    λ h.
        let (a, h1) = (both _ _).0 h in
        let (x, y, _) = (upstreams_from_iff r 0 [] us).0 h1 in ((some_iff us _).0 a, x, y),
    λ (a, x, y).
        (both _ _).1 ((some_iff us _).1 a, (upstreams_from_iff r 0 [] us).1 (x, y, All-Fresh _)),
  )
